-- ===== src/Sandbox/Provision/Orphans/Binding.antt =====
-- From the handle that `create` returns to the row that holds it.
use agent_platform_api.Common.{
  true, false, is_blank, some, length, ◌then_do◌, ok, ◌≡◌, refl, ◌∙◌, sym, subst, inl, inr,
  Bool-cases, ok_injective,
}
use agent_platform_api.Sandbox.Aggregate.{bind_runtime}
use agent_platform_api.Sandbox.Provision.{
  Scene, Env, Handle, PreparedWorkspace, is_cancelled, assert_active, persist, commits, starts,
  creates, emit,
}
use agent_platform_api.Sandbox.Provision.Pipeline.{bind_box, mark_bound, bind_instance, truthy}
use agent_platform_api.Sandbox.Provision.Laws.Steps.{finish_stage-keeps}
use agent_platform_api.Sandbox.Provision.Laws.Pipeline.{StageRule}
use agent_platform_api.Sandbox.Provision.Laws.Ends.{
  Ends, Ends-of, Ends-then, Ends_goes, Did-last, saved_status, persist-Ends,
}
use agent_platform_api.Sandbox.Provision.Orphans.{
  Held, Fresh, Prepared, Held-emit, Held-rule, Held-Fresh, Open, Held-Open, Kept, Held-Kept, Ready,
}

persist_keeps_handle :
    (env : Env) (handle : Handle) (s : Scene)
    → Ready handle s
    → Ends (Kept handle) (Open handle) (persist env s)
persist_keeps_handle env handle s (free, given) =
    persist-Ends (Kept handle) (Open handle) env s free λ saved written. (
      free.0,
      (
        saved,
        saved.events,
        Did-last (commits saved saved.events) s.done,
        (saved_status (env.row (length s.done)) s.sandbox saved written).1 ∙ given,
      ),
    )

assert_active-Open :
    (env : Env) (handle : Handle) (s : Scene) → Open handle s → Open handle (assert_active env s).0
unfolding assert_active
assert_active-Open env handle s h = elim (Bool-cases (is_cancelled env s)) [
  | inl off ↦ rw off h
  | inr on ↦ rw on h
]

truthy_path :
    (ws found : PreparedWorkspace)
    → found ≡ ws
    → is_blank found.host_path ≡ false
    → truthy (some ws.host_path) ≡ some ws.host_path
truthy_path ws found same named =
    subst (λ w. truthy (some w.host_path) ≡ some w.host_path) same (rw named refl)

bind_box-Ready :
    (ws : PreparedWorkspace) (handle : Handle) (s : Scene)
    → Open handle s
    → Ready handle (bind_box ws handle s).0
unfolding bind_runtime
bind_box-Ready ws handle s h = (h, refl)

bind_instance-Held :
    (env : Env) (ws : PreparedWorkspace) (handle : Handle) (s : Scene)
    → Prepared s
    → Held (bind_instance env ws handle (record s { handle = some handle })).0
unfolding bind_instance mark_bound
bind_instance-Held env ws handle s (fresh, p, path) =
    let t = record s { handle = some handle } in
    let opened : Ends (Open handle) (Open handle) (assert_active env t) =
      Ends-of (Open handle) (assert_active env t)
        (assert_active-Open env handle t (refl, fresh.1, p, path)) in
    Ends_goes (Kept handle) (Open handle) Held
      (assert_active env t then_do bind_box ws handle then_do persist env) (mark_bound env)
      (Ends-then (Ready handle) (Kept handle) (Open handle)
        (assert_active env t then_do bind_box ws handle) (persist env)
        (Ends-then (Open handle) (Ready handle) (Open handle) (assert_active env t)
          (bind_box ws handle) opened (bind_box-Ready ws handle))
        (persist_keeps_handle env handle))
      (Held-Open handle)
      (λ u q. finish_stage-keeps (Held-rule env) (record u { bound = true }) (Held-Kept handle u q))

pub Held-stages :
    (env : Env) (found : PreparedWorkspace)
    → env.workspace ≡ ok found
    → is_blank found.host_path ≡ false
    → StageRule env Fresh Prepared Held
Held-stages env found answered named = record {
  early = Held-Fresh;
  weaken = λ s h. Held-Fresh s h.0;
  prepares =
      λ s ws e h. (h, ws.host_path, truthy_path ws found (ok_injective (sym answered ∙ e)) named);
  rejects = λ s o r e h. Held-emit s (creates o) (Held-Fresh s h.0);
  binds = λ ws handle s o e given h. bind_instance-Held env ws handle (emit s (creates o)) h;
  starting = λ s handle h. Held-emit s (starts handle) h;
}
