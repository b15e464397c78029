-- ===== src/Sandbox/Provision/Laws/Credentials.antt =====
-- What the steps of `Provision/Credentials` keep.
use agent_platform_api.Common.{
  Text, Bool, true, false, not, if◌then◌else◌, text_eq, Option, none, some, List, [], ◌∷◌, ◌++◌,
  length, Outcome, ◌then_do◌, then_do_goes, refl, inl, inr, Bool-cases,
}
use agent_platform_api.Sandbox.Aggregate.{record_injected_runtimes}
use agent_platform_api.Sandbox.Provision.{
  Scene, Step, Env, Credential, Preparation, prepared, absent, broken, ProvisionError, emit,
  on_sandbox, persist, injects, zeroizes, prepares_credential, audits_absence, audits_injected,
}
use agent_platform_api.Sandbox.Provision.Credentials.{
  choose, push, settle_preparation, prepare_each, zeroize_all, finally_zeroize, reserve_injection,
  attempt_injection, is_rethrown, catch_injection, inject_each, inject_credentials,
}
use agent_platform_api.Sandbox.Provision.Laws.{
  Rule, ask_goes, active_goes, on_sandbox-keeps, persist-keeps,
}

if_goes : (P : Scene → Type 0) (b : Bool) (s t : Scene) → P s → P t → P (if b then s else t)
if_goes P true s t h k = h
if_goes P false s t h k = k

pub choose_goes :
    (R : Scene → Type 0) (b : Bool) (f g : Step) (s : Scene)
    → R (f s).0
    → R (g s).0
    → R (choose b f g s).0
choose_goes R true f g s h k = h
choose_goes R false f g s h k = k

module _ {env : Env} {P : Scene → Type 0} (rule : Rule env P) where
  pub zeroize_all-keeps : (cs : List Credential) (s : Scene) → P s → P (zeroize_all cs s)
  unfolding zeroize_all
  zeroize_all-keeps [] s h = h
  zeroize_all-keeps (c ∷ cs) s h = zeroize_all-keeps cs _ (rule.quiet s (zeroizes c) refl h)

  pub finally_zeroize-keeps :
      (cs : List Credential) (o : Outcome Scene ProvisionError) → P o.0 → P (finally_zeroize cs o).0
  unfolding finally_zeroize
  finally_zeroize-keeps cs o h = zeroize_all-keeps cs o.0 h

-- `P` up to the code after the step, which establishes `R`.
module _ {env : Env} {P R : Scene → Type 0} (rule : Rule env P)
    (weaken : (s : Scene) → P s → R s) where
  pub settle_preparation_goes :
      (p : Preparation) (runtime : Text) (s : Scene) (next : Option Credential → Step)
      → P s
      → ((c : Option Credential) (t : Scene) → P t → R (next c t).0)
      → R (settle_preparation p runtime s next).0
  unfolding settle_preparation
  settle_preparation_goes (prepared c) runtime s next h k = k (some c) s h
  settle_preparation_goes (absent code) runtime s next h k = k none _ (
      if_goes P (not (text_eq runtime s.sandbox.runtime)) s _ h
        (rule.quiet s (audits_absence runtime code) refl h))
  settle_preparation_goes (broken r) runtime s next h k = weaken s h

  pub prepare_each_goes :
      (runtimes : List Text) (s : Scene) (next : List Credential → Step)
      → P s
      → ((cs : List Credential) (t : Scene) → P t → R (next cs t).0)
      → R (prepare_each env runtimes s next).0
  unfolding prepare_each
  prepare_each_goes [] s next h k = k [] s h
  prepare_each_goes (runtime ∷ runtimes) s next h k =
      settle_preparation_goes (env.preparation runtime) runtime _ _
        (rule.quiet s (prepares_credential runtime) refl h)
        (λ c t p.
          prepare_each_goes runtimes t (λ cs. next (push c cs)) p (λ cs u q. k (push c cs) u q))

  pub reserve_injection_goes :
      (cs : List Credential) (s : Scene) (next : List Credential → Step)
      → P s
      → ((usable : List Credential) (t : Scene) → P t → R (next usable t).0)
      → R (reserve_injection env cs s next).0
  unfolding reserve_injection
  reserve_injection_goes [] s next h k = k [] s h
  reserve_injection_goes (c ∷ cs) s next h k = active_goes P R weaken env s _ h λ on.
      ask_goes P R weaken s _ (env.is_usable (length s.done)) _ (rule.quiet s _ refl h)
        λ usable t _ p.
          choose_goes R usable _ _ t
            (ask_goes P R weaken t _ (env.injection_recorded (length t.done)) _
              (rule.quiet t _ refl p)
              λ recorded u _ q.
                reserve_injection_goes cs u (λ rest. next (if recorded then c ∷ rest else rest)) q
                  (λ rest v r. k (if recorded then c ∷ rest else rest) v r))
            (reserve_injection_goes cs t next p k)

  catch_injection_goes :
      (o : Outcome Scene ProvisionError) (next : Bool → Step)
      → P o.0
      → ((b : Bool) (t : Scene) → P t → R (next b t).0)
      → R (catch_injection o next).0
  unfolding catch_injection
  catch_injection_goes (s, none) next h k = k true s h
  catch_injection_goes (s, some e) next h k = elim (Bool-cases (is_rethrown e)) [
    | inl out ↦ rw out (weaken s h)
    | inr kept ↦ rw kept (k false s h)
  ]

module _ {env : Env} {P : Scene → Type 0} (rule : Rule env P) where
  abbrev same : (s : Scene) → P s → P s
  same s h = h

  attempt_injection-keeps : (c : Credential) (s : Scene) → P s → P (attempt_injection env c s).0
  unfolding attempt_injection
  attempt_injection-keeps c s h =
      ask_goes P P same s (injects c) (env.injection (length s.done)) _
        (rule.quiet s (injects c) refl h)
        λ _ t _ p. active_goes P P same env t _ p λ on.
          ask_goes P P same t _ (env.is_usable (length t.done)) _ (rule.quiet t _ refl p)
            λ usable u _ q. choose_goes P usable _ _ u q q

  inject_each-keeps :
      (cs : List Credential) (injected : List Text) (s : Scene) (next : List Text → Step)
      → P s
      → ((ids : List Text) (t : Scene) → P t → P (next ids t).0)
      → P (inject_each env cs injected s next).0
  unfolding inject_each
  inject_each-keeps [] injected s next h k = k injected s h
  inject_each-keeps (c ∷ cs) injected s next h k = active_goes P P same env s _ h λ on.
      ask_goes P P same s _ (env.is_usable (length s.done)) _ (rule.quiet s _ refl h)
        λ usable t _ p.
          choose_goes P usable _ _ t
            (ask_goes P P same t _ (env.injection_recorded (length t.done)) _
              (rule.quiet t _ refl p)
              λ recorded u _ q.
                choose_goes P recorded _ _ u
                  (catch_injection_goes rule same (attempt_injection env c u) _
                    (attempt_injection-keeps c u q)
                    λ pushed v r.
                      inject_each-keeps cs
                        (if pushed then injected ++ c.runtime_id ∷ [] else injected) v next r k)
                  q)
            p

  pub inject_credentials-keeps :
      (cs : List Credential) (s : Scene) → P s → P (inject_credentials env cs s).0
  unfolding inject_credentials record_injected_runtimes
  inject_credentials-keeps cs s h = inject_each-keeps cs [] s _ h λ injected t p.
      then_do_goes P P
        (on_sandbox t (record_injected_runtimes t.sandbox injected, none) then_do persist env)
        (λ u. (emit u (audits_injected injected), none))
        (then_do_goes P P (on_sandbox t (record_injected_runtimes t.sandbox injected, none))
          (persist env)
          (on_sandbox-keeps rule t (record_injected_runtimes t.sandbox injected, none)
            (refl, inl refl) p)
          (λ u q. q) (λ u q. persist-keeps rule u q))
        (λ u q. q) (λ u q. rule.quiet u (audits_injected injected) refl q)
