-- ===== src/Project/Entity.antt =====
-- packages/modules/project/src/domain/entities/project.entity.ts, with value-objects/project-status.vo.ts
-- and RepoUrl.create of value-objects/repo-url.vo.ts.
--
-- A project is a record with the events that it has raised; a method returns it in every case, with the
-- error if it throws. `Remotes` is what the parser of remote addresses answers, which asks `new URL`.
pub mod Soundness
use agent_platform_api.Common.{
  ℕ, Text, Bool, true, false, not, ◌&&◌, ltb, length, trim, is_blank, if◌then◌else◌, Option, none,
  some, List, [], ◌∷◌, ◌++◌, Outcome, ◌then_do◌, Result, ok, err, ◌>>=◌,
}

pub data SourceType : Type 0 where
  git empty : SourceType

pub data CloneErrorCode : Type 0 where
  clone_failed_permission clone_failed_not_found clone_failed_network timeout interrupted
        disk_insufficient :
      CloneErrorCode

pub data CloneStatus : Type 0 where
  cloning ready failed : CloneStatus

-- `TRANSITIONS` and `canTransitionTo`
abbrev pub can_transition_to : CloneStatus → CloneStatus → Bool
can_transition_to cloning ready = true
can_transition_to cloning failed = true
can_transition_to failed cloning = true
can_transition_to failed ready = true
can_transition_to _ _ = false

pub data ProjectError : Type 0 where
  invalid_transition : CloneStatus → CloneStatus → ProjectError
  invalid_repo_url project_state : ProjectError

pub data ProjectEvent : Type 0 where
  created : Text → Text → ℕ → ProjectEvent
  clone_retried : Text → Text → ℕ → ProjectEvent
  clone_cancelled : Text → Text → ℕ → ProjectEvent
  converted_to_empty : Text → Text → Option Text → ℕ → ProjectEvent
  baseline_synced : Text → Text → ℕ → ℕ → ProjectEvent
  deleted : Text → Text → Bool → ℕ → ProjectEvent

-- `workspaceMode` has one value only and is left out.
pub record Project : Type 0 where
  pub id : Text
  pub name : Text
  pub source_type : SourceType
  pub repo_url : Option Text
  pub repo_branch : Option Text
  pub clone_status : CloneStatus
  pub clone_error_code : Option CloneErrorCode
  pub baseline_path : Text
  pub baseline_size_bytes : Option ℕ
  pub version : ℕ
  pub created_at : ℕ
  pub updated_at : ℕ
  pub events : List ProjectEvent

pub record ParsedRemote : Type 0 where
  pub host : Text
  pub authority : Text

-- `parseGitRemote` and `isBlockedGitHost`
pub record Remotes : Type 0 where
  pub parse : Text → Option ParsedRemote
  pub is_blocked : Text → Bool

pub record RepoUrl : Type 0 where
  pub value : Text
  pub parsed : ParsedRemote

repo_url_of : Remotes → Text → Option ParsedRemote → Result ProjectError RepoUrl
repo_url_of remotes v none = err invalid_repo_url
repo_url_of remotes v (some parsed) =
    if remotes.is_blocked parsed.host
    then err invalid_repo_url
    else ok (record { value = v; parsed = parsed })

-- `RepoUrl.create`
unfoldable pub repo_url_create : Remotes → Text → Result ProjectError RepoUrl
unfolding repo_url_of
repo_url_create remotes raw =
    let v = trim raw in
    if is_blank v
    then err invalid_repo_url
    else if ltb 2048 (length v)
    then err invalid_repo_url
    else repo_url_of remotes v (remotes.parse v)

pub record CreateInput : Type 0 where
  pub id : Text
  pub name : Text
  pub source_type : SourceType
  pub repo_url : Option Text
  pub repo_branch : Option Text
  pub baseline_path : Text
  pub now : ℕ

git_project : CreateInput → RepoUrl → Project
git_project input url = record {
  id = input.id;
  name = input.name;
  source_type = git;
  repo_url = some url.value;
  repo_branch = input.repo_branch;
  clone_status = cloning;
  clone_error_code = none;
  baseline_path = input.baseline_path;
  baseline_size_bytes = none;
  version = 0;
  created_at = input.now;
  updated_at = input.now;
  events = created input.id input.name input.now ∷ [];
}

empty_project : CreateInput → Project
empty_project input = record {
  id = input.id;
  name = input.name;
  source_type = empty;
  repo_url = none;
  repo_branch = none;
  clone_status = ready;
  clone_error_code = none;
  baseline_path = input.baseline_path;
  baseline_size_bytes = some 0;
  version = 0;
  created_at = input.now;
  updated_at = input.now;
  events = created input.id input.name input.now ∷ [];
}

-- The absent and the empty address are alike.
abbrev pub url_given : Option Text → Text
url_given none = []
url_given (some url) = url

create_of : Remotes → SourceType → CreateInput → Result ProjectError Project
unfolding git_project empty_project
create_of remotes git input =
    if is_blank (url_given input.repo_url)
    then err project_state
    else do url ← repo_url_create remotes (url_given input.repo_url); ok (git_project input url)
create_of remotes empty input =
    if not (is_blank (url_given input.repo_url))
    then err project_state
    else ok (empty_project input)

unfoldable pub create : Remotes → CreateInput → Result ProjectError Project
unfolding create_of
create remotes input = create_of remotes input.source_type input

abbrev raise : ProjectEvent → Project → Project
raise e p = record p { events = p.events ++ e ∷ [] }

transition : CloneStatus → ℕ → Project → Outcome Project ProjectError
transition to now p =
    if not (can_transition_to p.clone_status to)
    then (p, some (invalid_transition p.clone_status to))
    else (record p { clone_status = to; updated_at = now }, none)

unfoldable pub mark_clone_ready : ℕ → ℕ → Project → Outcome Project ProjectError
unfolding transition
mark_clone_ready size now p = transition ready now p then_do λ q.
    (record q { clone_error_code = none; baseline_size_bytes = some size }, none)

unfoldable pub mark_clone_failed : CloneErrorCode → ℕ → Project → Outcome Project ProjectError
unfolding transition
mark_clone_failed code now p =
    transition failed now p then_do λ q. (record q { clone_error_code = some code }, none)

abbrev is_in : CloneStatus → CloneStatus → Bool
is_in cloning cloning = true
is_in ready ready = true
is_in failed failed = true
is_in _ _ = false

abbrev is_git : SourceType → Bool
is_git git = true
is_git empty = false

unfoldable pub assert_can_sync : Project → Outcome Project ProjectError
assert_can_sync p =
    if not (is_in p.clone_status ready)
    then (p, some project_state)
    else if not (is_git p.source_type)
    then (p, some project_state)
    else (p, none)

unfoldable pub sync_baseline : ℕ → ℕ → Project → Outcome Project ProjectError
unfolding assert_can_sync
sync_baseline size now p = assert_can_sync p then_do λ q. (
  raise (baseline_synced q.id q.name size now)
      (record q { baseline_size_bytes = some size; updated_at = now }),
  none,
)

unfoldable pub retry_clone : ℕ → Project → Outcome Project ProjectError
unfolding transition
retry_clone now p =
    if not (is_in p.clone_status failed)
    then (p, some project_state)
    else if not (is_git p.source_type)
    then (p, some project_state)
    else transition cloning now p then_do λ q.
        (raise (clone_retried q.id q.name now) (record q { clone_error_code = none }), none)

-- `repoHost`, which throws where the stored address is not one.
repo_host : Remotes → Option Text → Result ProjectError (Option Text)
repo_host remotes none = ok none
repo_host remotes (some url) = do r ← repo_url_create remotes url; ok (some r.parsed.authority)

emptied : ℕ → Result ProjectError (Option Text) → Project → Outcome Project ProjectError
unfolding transition
emptied now (err e) p = (p, some e)
emptied now (ok host) p = transition ready now p then_do λ q. (
  raise (converted_to_empty q.id q.name host now) (record q {
    source_type = empty;
    repo_url = none;
    repo_branch = none;
    clone_error_code = none;
    baseline_size_bytes = some 0;
  }),
  none,
)

unfoldable pub convert_to_empty : Remotes → ℕ → Project → Outcome Project ProjectError
unfolding repo_host emptied
convert_to_empty remotes now p =
    if not (is_in p.clone_status failed)
    then (p, some project_state)
    else emptied now (repo_host remotes p.repo_url) p

-- The result says whether the clone was cancelled.
unfoldable pub cancel_clone : ℕ → Project → Project × Bool
cancel_clone now p =
    if not (is_in p.clone_status cloning)
    then (p, false)
    else (raise (clone_cancelled p.id p.name now) p, true)

unfoldable pub mark_deleted : Bool → ℕ → Project → Project
mark_deleted kept_baseline now p = raise (deleted p.id p.name kept_baseline now) p

unfoldable pub assert_can_accept_task : Project → Outcome Project ProjectError
assert_can_accept_task p =
    if not (is_in p.clone_status ready) then (p, some project_state) else (p, none)

unfoldable pub mark_persisted : ℕ → Project → Project
mark_persisted version p = record p { version = version }

-- The methods of a project.
pub data Call : Type 0 where
  marks_ready : ℕ → ℕ → Call
  marks_failed : CloneErrorCode → ℕ → Call
  syncs : ℕ → ℕ → Call
  retries : ℕ → Call
  converts : ℕ → Call
  cancels : ℕ → Call
  deletes : Bool → ℕ → Call
  accepts_task : Call
  persists : ℕ → Call

unfoldable pub step : Remotes → Project → Call → Outcome Project ProjectError
step remotes p (marks_ready size now) = mark_clone_ready size now p
step remotes p (marks_failed code now) = mark_clone_failed code now p
step remotes p (syncs size now) = sync_baseline size now p
step remotes p (retries now) = retry_clone now p
step remotes p (converts now) = convert_to_empty remotes now p
step remotes p (cancels now) = ((cancel_clone now p).0, none)
step remotes p (deletes kept now) = (mark_deleted kept now p, none)
step remotes p accepts_task = assert_can_accept_task p
step remotes p (persists version) = (mark_persisted version p, none)

-- A history of calls, past those that throw.
abbrev pub run_calls : Remotes → Project → List Call → Project
run_calls remotes p [] = p
run_calls remotes p (c ∷ cs) = run_calls remotes (step remotes p c).0 cs
