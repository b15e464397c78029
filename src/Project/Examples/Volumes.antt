-- ===== src/Project/Examples/Volumes.antt =====
-- A volume that is kept for three days, then cleaned up.
use agent_platform_api.Common.{
  ◌+◌, ◌*◌, ◌≤◌, ◌≡◌, refl, codes, true, none, some, [], ◌∷◌, ok, day_ms, trim,
}
use agent_platform_api.Project.Volume.{
  RetainedVolume, RegisterInput, VolumeSource, register, is_expired_at, run_calls, step, detaches,
  detach_sandbox,
}
use agent_platform_api.Project.Volume.Lifetime.{IsKept, expired-IsKept}

abbrev input : RegisterInput
input = record {
  id = codes "v";
  project_id = codes "p";
  sandbox_id = some (codes "box");
  sandbox_name = none;
  source_automation_id = none;
  source_automation_name = none;
  workspace_path = codes "/workspaces/box";
  source = VolumeSource.manual_destroy;
  retention_days = 3;
  disk_bytes = 4096;
  download_bytes = 2048;
  now = 1000;
}

abbrev volume : RetainedVolume
volume = record {
  id = codes "v";
  project_id = codes "p";
  sandbox_id = some (codes "box");
  sandbox_name = none;
  source_automation_id = none;
  source_automation_name = none;
  workspace_path = codes "/workspaces/box";
  source = VolumeSource.manual_destroy;
  disk_bytes = some 4096;
  download_bytes = some 2048;
  retained_at = 1000;
  retain_until = 1000 + 3 * day_ms;
  deleted_at = none;
  events =
      record {
        volume_id = codes "v";
        project_id = codes "p";
        sandbox_id = some (codes "box");
        retain_until = 1000 + 3 * day_ms;
        disk_bytes = 4096;
        download_bytes = 2048;
        occurred_at = 1000;
        sandbox_name = none;
      }
      ∷ [];
}

volume_made : register input ≡ ok volume
unfolding register trim
volume_made = refl

expired_at_last : is_expired_at (run_calls volume (detaches ∷ [])) (1000 + 3 * day_ms) ≡ true
unfolding is_expired_at step detach_sandbox
expired_at_last = refl

expired-IsKept_example : IsKept volume × (volume.retain_until ≤ 1000 + 3 * day_ms)
expired-IsKept_example =
    expired-IsKept input (detaches ∷ []) (1000 + 3 * day_ms) volume_made expired_at_last

abbrev cleaned : RetainedVolume
cleaned = record volume { deleted_at = some 5000 }
