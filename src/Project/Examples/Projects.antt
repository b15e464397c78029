-- ===== src/Project/Examples/Projects.antt =====
-- A project whose clone fails, is tried again and fails again, and is then turned into an empty one.
use agent_platform_api.Common.{◌≡◌, refl, codes, false, none, some, List, [], ◌∷◌, ok, trim}
use agent_platform_api.Project.Entity.{
  Project, Remotes, CreateInput, CloneErrorCode, cloning, Call, marks_failed, retries, converts,
  created, create, repo_url_create, step, run_calls, SourceType,
}
use agent_platform_api.Project.Entity.Soundness.{IsSound, run_calls-IsSound, Moves, step-Moves}

abbrev remotes : Remotes
remotes = record {
  parse = λ url. some (record { host = codes "git.corp"; authority = codes "git.corp:8443" });
  is_blocked = λ host. false;
}

abbrev input : CreateInput
input = record {
  id = codes "p";
  name = codes "app";
  source_type = SourceType.git;
  repo_url = some (codes " https://git.corp:8443/app.git");
  repo_branch = some (codes "main");
  baseline_path = codes "/baselines/p";
  now = 100;
}

abbrev project : Project
project = record {
  id = codes "p";
  name = codes "app";
  source_type = SourceType.git;
  repo_url = some (codes "https://git.corp:8443/app.git");
  repo_branch = some (codes "main");
  clone_status = cloning;
  clone_error_code = none;
  baseline_path = codes "/baselines/p";
  baseline_size_bytes = none;
  version = 0;
  created_at = 100;
  updated_at = 100;
  events = created (codes "p") (codes "app") 100 ∷ [];
}

project_made : create remotes input ≡ ok project
unfolding create repo_url_create trim
project_made = refl

abbrev given_up : List Call
given_up =
    marks_failed CloneErrorCode.clone_failed_network 200
    ∷ retries 300
    ∷ marks_failed CloneErrorCode.timeout 400
    ∷ converts 500
    ∷ retries 600
    ∷ []

run_calls-IsSound_example : IsSound (run_calls remotes project given_up)
run_calls-IsSound_example = run_calls-IsSound remotes input given_up project_made

step-Moves_example : Moves project (step remotes project (retries 300))
step-Moves_example = step-Moves remotes project (retries 300)
