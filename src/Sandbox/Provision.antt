-- ===== src/Sandbox/Provision.antt =====
-- packages/modules/sandbox/src/application/workflows/provision-sandbox.workflow.ts: what happens after
-- a task was accepted. Here are the locals of `provision` and what its steps share; `Env` holds the
-- environment maps, `Credentials` and `Steps` the stages, `Pipeline` the two workflows.
--
-- A step returns what was done, in order, and the error if it throws. What the collaborators answer is
-- an argument; an answer that is asked for several times is given for the number of things done before.
-- So are the clock, the version of the row, and the moment of `cancel`. Log lines are left
-- out, and so are the answers of calls whose failure is swallowed.
pub mod Maps
pub mod Credentials
pub mod Steps
pub mod Pipeline
pub mod Options
pub mod Restart
pub mod Laws
pub mod Orphans
pub mod Wiping
pub mod Fate
pub mod Silence
use agent_platform_api.Common.{
  ℕ, ◌-◌, Text, codes, Bool, true, false, any, if◌then◌else◌, text_eq, leb, Option, none, some,
  List, [], ◌∷◌, ◌++◌, length, Outcome, ◌then_do◌, Result, ok, err,
}
use agent_platform_api.Sandbox.Status.{SandboxStatus, TriggeredBy, scheduler}
use agent_platform_api.Sandbox.InitialTask.{SandboxError}
use agent_platform_api.Sandbox.Aggregate.{Sandbox, SandboxEvent, transition_to}
use agent_platform_api.Sandbox.Repository.{SaveError, save_sync}

-- What a collaborator rejects with: the `code` of the error, if it is a string, and its message.
pub record Rejection : Type 0 where
  pub code : Option Text
  pub message : Text

-- `SandboxProvisionCancelled`, `RuntimeCredentialRevokedError`, the clash of `mergeCredentialEnv`, the
-- sandbox that `handleOf` refuses, what the aggregate and the repository throw, and the rest.
pub data ProvisionError : Type 0 where
  cancelled revoked name_clash no_handle : ProvisionError
  domain : SandboxError → ProvisionError
  unsaved : SaveError → ProvisionError
  rejected : Rejection → ProvisionError

pub record Handle : Type 0 where
  pub provider : Text
  pub provider_sandbox_id : Text
  pub provider_state : Option Text

-- A `Record<string, string>`, in the order of its keys.
abbrev pub EnvMap : Type 0
EnvMap = List (Text × Text)

-- `PreparedRuntimeCredential`, as far as the workflow reads it.
pub record Credential : Type 0 where
  pub runtime_id : Text
  pub credential_id : Text
  pub env : EnvMap

pub record WorkspaceSource : Type 0 where
  pub baseline_path : Text
  pub branch : Option Text

pub record PreparedWorkspace : Type 0 where
  pub host_path : Text
  pub baseline_existed : Bool
  pub entry_count : ℕ

pub record ImageSpec : Type 0 where
  pub ref : Text
  pub digest : Text
  pub entrypoint : Option (List Text)
  pub supported_runtimes : Option (List Text)

-- `TaskImageSelection`, as far as the workflow reads it.
pub record TaskImage : Type 0 where
  pub spec : ImageSpec
  pub env : Option EnvMap

pub record Quota : Type 0 where
  pub cores : ℕ
  pub ram_mb : ℕ
  pub disk_mb : ℕ

-- The options of `provider.create`; the label is the sandbox, the one volume the workspace.
pub record CreateOptions : Type 0 where
  pub sandbox_id : Text
  pub quota : Quota
  pub image : ImageSpec
  pub env : EnvMap
  pub volume_source : Text

pub record SessionResult : Type 0 where
  pub reused_existing : Bool
  pub prompt_consumed : Bool

pub data Stage : Type 0 where
  scheduling preparing_workspace creating starting provision restart : Stage

pub data Phase : Type 0 where
  starting ready : Phase

-- What `splitFailure` makes of an error.
pub record SplitFailure : Type 0 where
  pub code : Text
  pub message : Text

pub data Effect : Type 0 where
  commits : Sandbox → List SandboxEvent → Effect
  binds_late : Sandbox → Effect
  audits_stage : Stage → ℕ → Option SplitFailure → Option Bool → Effect
  audits_workspace : Bool → PreparedWorkspace → Effect
  audits_absence : Text → Text → Effect
  audits_injected : List Text → Effect
  audits_session : SessionResult → ℕ → Effect
  broadcasts : Phase → Option Bool → Effect
  prepares_workspace : WorkspaceSource → Effect
  finds_image : Text → Effect
  prepares_credential : Text → Effect
  reads_quota : Effect
  checks_usable : Text → Text → Effect
  records_injection : Text → Text → Effect
  creates : CreateOptions → Effect
  asks_staged : ImageSpec → Effect
  starts : Handle → Effect
  installs : Text → ImageSpec → Effect
  seeds : Text → Effect
  injects : Credential → Effect
  bootstraps : Text → Option Text → Effect
  zeroizes : Credential → Effect
  finds_row : Effect
  destroys : Handle → Effect
  cleans_up : Effect
  releases : Effect

abbrev pub Answer : Type 0 → Type 0
Answer A = Result Rejection A

-- `prepareRuntimeCredential`: a credential, a `CredentialPreparationError`, or another rejection.
pub data Preparation : Type 0 where
  prepared : Credential → Preparation
  absent : Text → Preparation
  broken : Rejection → Preparation

pub record Env : Type 0 where
  pub clock : ℕ → ℕ
  -- how much was done when `cancel` was called
  pub cancelled_after : Option ℕ
  -- the version of the row, if it is there
  pub row : ℕ → Option ℕ
  pub workspace : Answer PreparedWorkspace
  pub task_image : Text → Answer (Option TaskImage)
  pub builtin_image : Text
  pub preparation : Text → Preparation
  pub reserved_quota : Answer (Option Quota)
  pub is_usable : ℕ → Answer Bool
  pub injection_recorded : ℕ → Answer Bool
  pub creation : CreateOptions → Answer Handle
  -- the provider may lack `imageStaged`, and the adapter of the runtime `seedStartupFiles`
  pub image_staged : Option (Answer Bool)
  pub start : Answer Unit
  pub installation : Answer Unit
  pub seeding : Answer (Option (Answer Unit))
  pub injection : ℕ → Answer Unit
  pub session : Option Text → Answer SessionResult
  pub current_row : Answer (Option Sandbox)
  pub released : Answer Unit
  pub message_of : ProvisionError → Text

-- The aggregate and the locals of `provision`.
pub record Scene : Type 0 where
  pub sandbox : Sandbox
  pub handle : Option Handle
  pub workspace_path : Option Text
  pub bound : Bool
  pub stage : Stage
  pub stage_started_at : ℕ
  pub stage_detail : Option Bool
  pub done : List Effect

abbrev pub Step : Type 0
Step = Scene → Outcome Scene ProvisionError

abbrev pub emit : Scene → Effect → Scene
emit s e = record s { done = s.done ++ e ∷ [] }

-- `this.clock.now()`
abbrev pub now : Env → Scene → ℕ
now env s = env.clock (length s.done)

-- A call of a collaborator, and what follows if it is answered.
abbrev pub ask :
    {A : Type 0} → Scene → Effect → Answer A → (A → Step) → Outcome Scene ProvisionError
ask s e (ok a) next = next a (emit s e)
ask s e (err r) next = (emit s e, some (rejected r))

abbrev pub was_cancelled : Option ℕ → ℕ → Bool
was_cancelled none n = false
was_cancelled (some k) n = leb k n

-- `this.cancelled.has(sandbox.id)`
abbrev pub is_cancelled : Env → Scene → Bool
is_cancelled env s = was_cancelled env.cancelled_after (length s.done)

unfoldable pub assert_active : Env → Step
assert_active env s = if is_cancelled env s then (s, some cancelled) else (s, none)

-- The transaction of `persist`: the row, then the events that `pullEvents` drains.
unfoldable pub settle_commit : Scene → Result SaveError Sandbox → Outcome Scene ProvisionError
settle_commit s (err e) = (s, some (unsaved e))
settle_commit s (ok saved) =
    (emit (record s { sandbox = record saved { events = [] } }) (commits saved saved.events), none)

unfoldable pub commit : Env → Step
unfolding settle_commit
commit env s = settle_commit s (save_sync (env.row (length s.done)) s.sandbox)

unfoldable pub persist : Env → Step
unfolding assert_active commit
persist env s = assert_active env s then_do commit env

abbrev pub lift_error : Option SandboxError → Option ProvisionError
lift_error none = none
lift_error (some e) = some (domain e)

-- A method of the aggregate.
unfoldable pub on_sandbox : Scene → Outcome Sandbox SandboxError → Outcome Scene ProvisionError
on_sandbox s (sandbox, thrown) = (record s { sandbox = sandbox }, lift_error thrown)

unfoldable pub advance_to : Env → SandboxStatus → Step
unfolding assert_active on_sandbox persist
advance_to env to s =
    assert_active env s
    then_do (λ t. on_sandbox t (transition_to t.sandbox to scheduler (now env t)))
    then_do persist env
