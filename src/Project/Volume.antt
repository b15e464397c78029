-- ===== src/Project/Volume.antt =====
-- packages/modules/project/src/domain/entities/retained-volume.entity.ts: a workspace that is kept after
-- its sandbox.
pub mod Lifetime
use agent_platform_api.Common.{
  ℕ, ◌+◌, ◌*◌, Text, Bool, true, false, not, ◌&&◌, leb, ◌==◌, any, trim, is_blank, is_some, day_ms,
  if◌then◌else◌, Option, none, some, List, [], ◌∷◌, Outcome, ◌then_do◌, Result, ok, err,
}

pub data VolumeSource : Type 0 where
  manual_destroy automation_artifact : VolumeSource

-- `RetainedVolumeStateError`, by what it is about.
pub data VolumeError : Type 0 where
  retention_period workspace_path not_after read_only : VolumeError

-- `VolumeRetained`
pub record VolumeRetained : Type 0 where
  pub volume_id : Text
  pub project_id : Text
  pub sandbox_id : Option Text
  pub retain_until : ℕ
  pub disk_bytes : ℕ
  pub download_bytes : ℕ
  pub occurred_at : ℕ
  pub sandbox_name : Option Text

pub record RetainedVolume : Type 0 where
  pub id : Text
  pub project_id : Text
  pub sandbox_id : Option Text
  pub sandbox_name : Option Text
  pub source_automation_id : Option Text
  pub source_automation_name : Option Text
  pub workspace_path : Text
  pub source : VolumeSource
  pub disk_bytes : Option ℕ
  pub download_bytes : Option ℕ
  pub retained_at : ℕ
  pub retain_until : ℕ
  pub deleted_at : Option ℕ
  pub events : List VolumeRetained

pub record RegisterInput : Type 0 where
  pub id : Text
  pub project_id : Text
  pub sandbox_id : Option Text
  pub sandbox_name : Option Text
  pub source_automation_id : Option Text
  pub source_automation_name : Option Text
  pub workspace_path : Text
  pub source : VolumeSource
  pub retention_days : ℕ
  pub disk_bytes : ℕ
  pub download_bytes : ℕ
  pub now : ℕ

abbrev pub allowed_days : List ℕ
allowed_days = 3 ∷ 7 ∷ 30 ∷ []

registered : RegisterInput → ℕ → RetainedVolume
registered input retain_until = record {
  id = input.id;
  project_id = input.project_id;
  sandbox_id = input.sandbox_id;
  sandbox_name = input.sandbox_name;
  source_automation_id = input.source_automation_id;
  source_automation_name = input.source_automation_name;
  workspace_path = input.workspace_path;
  source = input.source;
  disk_bytes = some input.disk_bytes;
  download_bytes = some input.download_bytes;
  retained_at = input.now;
  retain_until = retain_until;
  deleted_at = none;
  events =
      record {
        volume_id = input.id;
        project_id = input.project_id;
        sandbox_id = input.sandbox_id;
        retain_until = retain_until;
        disk_bytes = input.disk_bytes;
        download_bytes = input.download_bytes;
        occurred_at = input.now;
        sandbox_name = input.sandbox_name;
      }
      ∷ [];
}

unfoldable pub register : RegisterInput → Result VolumeError RetainedVolume
unfolding registered
register input =
    let retain_until = input.now + input.retention_days * day_ms in
    if not (any (λ d. d == input.retention_days) allowed_days)
    then err retention_period
    else if is_blank (trim input.workspace_path)
    then err workspace_path
    else if leb retain_until input.now
    then err not_after
    else ok (registered input retain_until)

abbrev pub is_deleted : RetainedVolume → Bool
is_deleted v = is_some v.deleted_at

unfoldable pub is_expired_at : RetainedVolume → ℕ → Bool
is_expired_at v now = not (is_deleted v) && leb v.retain_until now

assert_mutable : RetainedVolume → Outcome RetainedVolume VolumeError
assert_mutable v = if is_deleted v then (v, some read_only) else (v, none)

unfoldable pub mark_deleted : ℕ → RetainedVolume → Outcome RetainedVolume VolumeError
unfolding assert_mutable
mark_deleted now v = assert_mutable v then_do λ w. (record w { deleted_at = some now }, none)

unfoldable pub detach_sandbox : RetainedVolume → Outcome RetainedVolume VolumeError
unfolding assert_mutable
detach_sandbox v = assert_mutable v then_do λ w. (record w { sandbox_id = none }, none)

pub data Call : Type 0 where
  deletes : ℕ → Call
  detaches : Call

unfoldable pub step : RetainedVolume → Call → Outcome RetainedVolume VolumeError
step v (deletes now) = mark_deleted now v
step v detaches = detach_sandbox v

abbrev pub run_calls : RetainedVolume → List Call → RetainedVolume
run_calls v [] = v
run_calls v (c ∷ cs) = run_calls (step v c).0 cs
