-- ===== src/Sandbox/Provision/Credentials.antt =====
-- provision-sandbox.workflow.ts: `prepareCredentials`, `reserveInjection`, `injectCredentials`, and the
-- `finally` that wipes the credentials. What a step hands to the code after it is an argument of `next`.
use agent_platform_api.Common.{
  Text, Bool, true, false, not, if◌then◌else◌, text_eq, Option, none, some, List, [], ◌∷◌, ◌++◌,
  length, Outcome, ◌then_do◌,
}
use agent_platform_api.Sandbox.Aggregate.{record_injected_runtimes}
use agent_platform_api.Sandbox.Provision.{
  Scene, Step, Env, Credential, Preparation, prepared, absent, broken, ProvisionError, cancelled,
  revoked, rejected, emit, ask, assert_active, on_sandbox, persist, prepares_credential,
  audits_absence, audits_injected, zeroizes, checks_usable, records_injection, injects,
}

-- `if (test) a else b`
abbrev pub choose : Bool → Step → Step → Step
choose true a b = a
choose false a b = b

abbrev pub push : Option Credential → List Credential → List Credential
push none cs = cs
push (some c) cs = c ∷ cs

-- `catch (e)` of `prepareOneCredential`: only the runtime of the task is worth a warning.
unfoldable pub settle_preparation :
    Preparation → Text → Scene → (Option Credential → Step) → Outcome Scene ProvisionError
settle_preparation (prepared c) runtime s next = next (some c) s
settle_preparation (absent code) runtime s next =
    next none
      (if not (text_eq runtime s.sandbox.runtime) then s else emit s (audits_absence runtime code))
settle_preparation (broken r) runtime s next = (s, some (rejected r))

unfoldable pub prepare_each :
    Env → List Text → Scene → (List Credential → Step) → Outcome Scene ProvisionError
unfolding settle_preparation
prepare_each env [] s next = next [] s
prepare_each env (runtime ∷ runtimes) s next =
    settle_preparation (env.preparation runtime) runtime (emit s (prepares_credential runtime))
      (λ c t. prepare_each env runtimes t (λ cs. next (push c cs)))

unfoldable pub prepare_credentials :
    Env → Scene → (List Credential → Step) → Outcome Scene ProvisionError
unfolding prepare_each
prepare_credentials env s next = prepare_each env (s.sandbox.runtime ∷ []) s next

unfoldable pub zeroize_all : List Credential → Scene → Scene
zeroize_all [] s = s
zeroize_all (c ∷ cs) s = zeroize_all cs (emit s (zeroizes c))

-- `try { body } finally { for (const c of credentials) c.credential.zeroize(); }`
unfoldable pub finally_zeroize :
    List Credential → Outcome Scene ProvisionError → Outcome Scene ProvisionError
unfolding zeroize_all
finally_zeroize cs (s, thrown) = (zeroize_all cs s, thrown)

abbrev pub ask_usable : Env → Credential → Scene → (Bool → Step) → Outcome Scene ProvisionError
ask_usable env c s next =
    ask s (checks_usable c.runtime_id c.credential_id) (env.is_usable (length s.done)) next

abbrev pub ask_recorded : Env → Credential → Scene → (Bool → Step) → Outcome Scene ProvisionError
ask_recorded env c s next =
    ask s (records_injection c.runtime_id c.credential_id) (env.injection_recorded (length s.done))
      next

unfoldable pub reserve_injection :
    Env → List Credential → Scene → (List Credential → Step) → Outcome Scene ProvisionError
unfolding assert_active
reserve_injection env [] s next = next [] s
reserve_injection env (c ∷ cs) s next = assert_active env s then_do λ t.
    ask_usable env c t (λ usable.
      choose usable
        (λ u. ask_recorded env c u (λ recorded v.
          reserve_injection env cs v (λ rest. next (if recorded then c ∷ rest else rest))))
        (λ u. reserve_injection env cs u next))

-- The `try` around one injection.
unfoldable pub attempt_injection : Env → Credential → Step
unfolding assert_active
attempt_injection env c s = ask s (injects c) (env.injection (length s.done)) λ _ t.
    assert_active env t then_do λ u.
    ask_usable env c u (λ usable. choose usable (λ v. (v, none)) (λ v. (v, some revoked)))

-- `e instanceof RuntimeCredentialRevokedError || e instanceof SandboxProvisionCancelled`
abbrev pub is_rethrown : ProvisionError → Bool
is_rethrown revoked = true
is_rethrown cancelled = true
is_rethrown e = false

-- Its `catch`; `next` is told whether the runtime was pushed.
unfoldable pub catch_injection :
    Outcome Scene ProvisionError → (Bool → Step) → Outcome Scene ProvisionError
catch_injection (s, none) next = next true s
catch_injection (s, some e) next = if is_rethrown e then (s, some e) else next false s

unfoldable pub inject_each :
    Env → List Credential → List Text → Scene → (List Text → Step) → Outcome Scene ProvisionError
unfolding assert_active attempt_injection catch_injection
inject_each env [] injected s next = next injected s
inject_each env (c ∷ cs) injected s next = assert_active env s then_do λ t.
    ask_usable env c t (λ usable.
      choose usable
        (λ u. ask_recorded env c u (λ recorded.
          choose recorded
            (λ v. catch_injection (attempt_injection env c v) (λ pushed w.
              inject_each env cs (if pushed then injected ++ c.runtime_id ∷ [] else injected) w
                next))
            (λ v. (v, some revoked))))
        (λ u. (u, some revoked)))

unfoldable pub inject_credentials : Env → List Credential → Step
unfolding inject_each on_sandbox persist record_injected_runtimes
inject_credentials env credentials s = inject_each env credentials [] s λ injected t.
    on_sandbox t (record_injected_runtimes t.sandbox injected, none)
    then_do persist env
    then_do λ u. (emit u (audits_injected injected), none)
