-- ===== src/Sandbox/Provision/Laws/Ends.antt =====
-- How a step ends: with `Q` where it returns, and with `E` where it throws. What was done.
use agent_platform_api.Common.{
  ℕ, Option, none, some, List, [], ◌∷◌, ◌++◌, length, Outcome, ◌then_do◌, Result, ok, err, ◌≡◌,
  refl, ap, sym, ◌⊎◌, inl, inr, Bool-cases,
}
use agent_platform_api.Sandbox.Aggregate.{Sandbox, mark_persisted}
use agent_platform_api.Sandbox.Repository.{SaveError, save_sync, save_sync_inverse}
use agent_platform_api.Sandbox.Provision.{
  Scene, Step, Env, Answer, Effect, Handle, ProvisionError, emit, ask, persist, is_cancelled,
  commit, settle_commit, assert_active, releases, destroys,
}
use agent_platform_api.Sandbox.Provision.Pipeline.{release_and_throw}
use agent_platform_api.Sandbox.Provision.Laws.{persist_goes, saved_scene}

abbrev pub Ends : (Scene → Type 0) → (Scene → Type 0) → Outcome Scene ProvisionError → Type 0
Ends Q E (s, none) = Q s
Ends Q E (s, some e) = E s

pub Ends-of : (P : Scene → Type 0) (o : Outcome Scene ProvisionError) → P o.0 → Ends P P o
Ends-of P (s, none) h = h
Ends-of P (s, some e) h = h

pub Ends-then :
    (P Q E : Scene → Type 0) (o : Outcome Scene ProvisionError) (f : Step)
    → Ends P E o
    → ((s : Scene) → P s → Ends Q E (f s))
    → Ends Q E (o then_do f)
Ends-then P Q E (s, none) f h k = k s h
Ends-then P Q E (s, some e) f h k = h

pub Ends_at : (P : Scene → Type 0) (o : Outcome Scene ProvisionError) → Ends P P o → P o.0
Ends_at P (s, none) h = h
Ends_at P (s, some e) h = h

pub Ends_goes :
    (Q E R : Scene → Type 0) (o : Outcome Scene ProvisionError) (f : Step)
    → Ends Q E o
    → ((s : Scene) → E s → R s)
    → ((s : Scene) → Q s → R (f s).0)
    → R (o then_do f).0
Ends_goes Q E R (s, none) f h w k = k s h
Ends_goes Q E R (s, some e) f h w k = w s h

pub Ends-weaken :
    (P E F : Scene → Type 0) (o : Outcome Scene ProvisionError)
    → ((s : Scene) → E s → F s)
    → Ends P E o
    → Ends P F o
Ends-weaken P E F (s, none) w h = h
Ends-weaken P E F (s, some e) w h = w s h

-- The effect is among those done.
abbrev pub Did : Effect → List Effect → Type 0
Did e [] = ⊥
Did e (d ∷ done) = (d ≡ e) ⊎ Did e done

pub Did-last : (e : Effect) (done : List Effect) → Did e (done ++ e ∷ [])
Did-last e [] = inl refl
Did-last e (d ∷ done) = inr (Did-last e done)

pub Did-before : (e x : Effect) (done : List Effect) → Did e done → Did e (done ++ x ∷ [])
Did-before e x [] h = absurd h
Did-before e x (d ∷ done) (inl here) = inl here
Did-before e x (d ∷ done) (inr there) = inr (Did-before e x done there)

-- The instance, if there is one, was asked to go.
abbrev pub IsDestroyed : Option Handle → List Effect → Type 0
IsDestroyed none done = Unit
IsDestroyed (some handle) done = Did (destroys handle) done

pub IsDestroyed-before :
    (handle : Option Handle) (x : Effect) (done : List Effect)
    → IsDestroyed handle done
    → IsDestroyed handle (done ++ x ∷ [])
IsDestroyed-before none x done h = tt
IsDestroyed-before (some handle) x done h = Did-before (destroys handle) x done h

ask-Ends :
    (r : Answer Unit) (e : ProvisionError) (Q E : Scene → Type 0) (s : Scene)
    → E (emit s releases)
    → Ends Q E (ask s releases r (λ _ t. (t, some e)))
ask-Ends (ok a) e Q E s h = h
ask-Ends (err r) e Q E s h = h

pub release_and_throw-Ends :
    (env : Env) (e : ProvisionError) (Q E : Scene → Type 0) (s : Scene)
    → E (emit s releases)
    → Ends Q E (release_and_throw env e s)
release_and_throw-Ends env e Q E s h = ask-Ends env.released e Q E s h

-- What a save leaves of the aggregate.
pub saved_status :
    (existing : Option ℕ) (s saved : Sandbox)
    → save_sync existing s ≡ ok saved
    → (saved.status ≡ s.status) × (saved.provider_sandbox_id ≡ s.provider_sandbox_id)
unfolding mark_persisted
saved_status existing s saved h =
    let (kept, admitted, written) = save_sync_inverse existing s saved h in
    (sym (ap (λ b. b.status) written), sym (ap (λ b. b.provider_sandbox_id) written))

pub persist_status : (env : Env) (s : Scene) → (persist env s).0.sandbox.status ≡ s.sandbox.status
persist_status env s =
    persist_goes (λ t. t.sandbox.status ≡ s.sandbox.status) env s refl
      (λ saved on e. (saved_status (env.row (length s.done)) s.sandbox saved e).0)

pub persist_handle : (env : Env) (s : Scene) → (persist env s).0.handle ≡ s.handle
persist_handle env s = persist_goes (λ t. t.handle ≡ s.handle) env s refl (λ saved on e. refl)

settle_commit-Ends :
    (Q E : Scene → Type 0) (s : Scene) (r : Result SaveError Sandbox)
    → E s
    → ((saved : Sandbox) → r ≡ ok saved → Q (saved_scene s saved))
    → Ends Q E (settle_commit s r)
unfolding settle_commit
settle_commit-Ends Q E s (ok saved) h k = k saved refl
settle_commit-Ends Q E s (err e) h k = h

pub persist-Ends :
    (Q E : Scene → Type 0) (env : Env) (s : Scene)
    → E s
    → ((saved : Sandbox)
        → save_sync (env.row (length s.done)) s.sandbox ≡ ok saved
        → Q (saved_scene s saved))
    → Ends Q E (persist env s)
unfolding persist commit assert_active
persist-Ends Q E env s h k = elim (Bool-cases (is_cancelled env s)) [
  | inl off ↦ rw off h
  | inr on ↦ rw on (settle_commit-Ends Q E s (save_sync (env.row (length s.done)) s.sandbox) h k)
]
