-- ===== src/Sandbox/Provision/Laws/Created.antt =====
-- The instances that the provider created, read off the calls of `create`, and the handle that the
-- workflow holds.
use agent_platform_api.Common.{
  true, Option, none, some, List, [], ◌∷◌, ◌++◌, ◌then_do◌, then_do_keeps, ok, err, ◌≡◌, refl, ◌∙◌,
  ap, sym,
}
use agent_platform_api.Sandbox.Provision.{
  Scene, Env, Effect, Answer, Handle, PreparedWorkspace, CreateOptions, emit, assert_active,
  persist, creates, starts, commits,
}
use agent_platform_api.Sandbox.Provision.Pipeline.{bind_box, mark_bound, bind_instance}
use agent_platform_api.Sandbox.Provision.Laws.{Rule, is_quiet, assert_active-keeps, persist-keeps}
use agent_platform_api.Sandbox.Provision.Laws.Steps.{finish_stage-keeps}
use agent_platform_api.Sandbox.Provision.Laws.Pipeline.{StageRule}

abbrev answered : Answer Handle → List Handle
answered (ok handle) = handle ∷ []
answered (err r) = []

abbrev created_by : Env → Effect → List Handle
created_by env (creates o) = answered (env.creation o)
created_by env e = []

-- The handles of the `create` calls that were answered.
abbrev pub created : Env → List Effect → List Handle
created env [] = []
created env (e ∷ done) = created_by env e ++ created env done

-- The handle that the workflow holds, as a list.
abbrev pub listed : Option Handle → List Handle
listed none = []
listed (some handle) = handle ∷ []

prefix : (xs : List Handle) {ys zs : List Handle} → ys ≡ zs → xs ++ ys ≡ xs ++ zs
prefix xs e = ap (λ l. xs ++ l) e

append_nothing : (xs : List Handle) → xs ++ [] ≡ xs
append_nothing [] = refl
append_nothing (x ∷ xs) = ap (λ l. x ∷ l) (append_nothing xs)

append_assoc : (xs ys zs : List Handle) → (xs ++ ys) ++ zs ≡ xs ++ (ys ++ zs)
append_assoc [] ys zs = refl
append_assoc (x ∷ xs) ys zs = ap (λ l. x ∷ l) (append_assoc xs ys zs)

created-append :
    (env : Env) (e : Effect) (done : List Effect)
    → created env (done ++ e ∷ []) ≡ created env done ++ created_by env e
created-append env e [] = append_nothing (created_by env e)
created-append env e (d ∷ done) =
    prefix (created_by env d) (created-append env e done)
    ∙ sym (append_assoc (created_by env d) (created env done) (created_by env e))

-- Every other effect creates nothing.
created-other :
    (env : Env) (e : Effect) (done : List Effect)
    → created_by env e ≡ []
    → created env (done ++ e ∷ []) ≡ created env done
created-other env e done nothing =
    created-append env e done
    ∙ prefix (created env done) nothing
    ∙ append_nothing (created env done)

created-first :
    (env : Env) (o : CreateOptions) (done : List Effect) (answer : Answer Handle)
    → env.creation o ≡ answer
    → created env done ≡ []
    → created env (done ++ creates o ∷ []) ≡ answered answer
created-first env o done answer e h =
    created-append env (creates o) done ∙ ap (λ l. l ++ answered (env.creation o)) h ∙ ap answered e

quiet-created : (env : Env) (e : Effect) → is_quiet e ≡ true → created_by env e ≡ []
quiet-created env (creates o) h = cc
quiet-created env e h = refl

-- Nothing was created yet; and the handle is that of the one instance that was.
abbrev pub Uncreated : Env → Scene → Type 0
Uncreated env s = (created env s.done ≡ []) × (s.handle ≡ none)

abbrev pub Matched : Env → Scene → Type 0
Matched env s = created env s.done ≡ listed s.handle

pub Uncreated-rule : (env : Env) → Rule env (Uncreated env)
Uncreated-rule env = record {
  quiet = λ s e quiet h. (created-other env e s.done (quiet-created env e quiet) ∙ h.0, h.1);
  enters = λ s stage at detail h. h;
  writes = λ s box w h. h;
  saves = λ s saved on e h. (created-other env (commits saved saved.events) s.done refl ∙ h.0, h.1);
}

pub Matched-emit :
    (env : Env) (s : Scene) (e : Effect)
    → created_by env e ≡ []
    → Matched env s
    → Matched env (emit s e)
Matched-emit env s e nothing h = created-other env e s.done nothing ∙ h

pub Matched-rule : (env : Env) → Rule env (Matched env)
Matched-rule env = record {
  quiet = λ s e quiet h. Matched-emit env s e (quiet-created env e quiet) h;
  enters = λ s stage at detail h. h;
  writes = λ s box w h. h;
  saves = λ s saved on e h. created-other env (commits saved saved.events) s.done refl ∙ h;
}

Uncreated-Matched : (env : Env) (s : Scene) → Uncreated env s → Matched env s
Uncreated-Matched env s h = h.0 ∙ sym (ap listed h.1)

-- What the saves keep, and the handle does not touch, `bind_instance` keeps.
pub bind_instance-keeps :
    {env : Env} {P : Scene → Type 0} (rule : Rule env P) (ws : PreparedWorkspace) (handle : Handle)
    → ((s : Scene) → P s → P (bind_box ws handle s).0)
    → ((s : Scene) → P s → P (record s { bound = true }))
    → (s : Scene) → P s
    → P (bind_instance env ws handle s).0
unfolding bind_instance mark_bound
bind_instance-keeps {env} {P} rule ws handle boxes bounds s h =
    then_do_keeps P (assert_active env s then_do bind_box ws handle then_do persist env)
      (mark_bound env)
      (then_do_keeps P (assert_active env s then_do bind_box ws handle) (persist env)
        (then_do_keeps P (assert_active env s) (bind_box ws handle) (assert_active-keeps rule s h)
          boxes)
        (persist-keeps rule))
      (λ t p. finish_stage-keeps rule (record t { bound = true }) (bounds t p))

pub Matched-stages : (env : Env) → StageRule env (Uncreated env) (Uncreated env) (Matched env)
Matched-stages env = record {
  early = Uncreated-Matched env;
  weaken = Uncreated-Matched env;
  prepares = λ s ws found h. h;
  rejects = λ s o r e h. created-first env o s.done (err r) e h.0 ∙ sym (ap listed h.1);
  binds = λ ws handle s o found e h.
      bind_instance-keeps (Matched-rule env) ws handle (λ t p. p) (λ t p. p)
        (record (emit s (creates o)) { handle = some handle })
        (created-first env o s.done (ok handle) e h.0);
  starting = λ s handle h. Matched-emit env s (starts handle) refl h;
}
