-- ===== src/Project/Entity/Soundness.antt =====
-- What holds of a project after any calls: its source, its address, its error and its size agree with its
-- status.
use agent_platform_api.Common.{
  ℕ, ◌≡◌, refl, subst, Text, true, false, Option, none, List, [], ◌∷◌, is_some, Result, ok, err,
  ok_injective, ◌⊎◌, inl, inr, arith, ◌>>=◌, is_blank, Bool-cases, Outcome,
}
use agent_platform_api.Project.Entity.{
  Project, SourceType, git, empty, ready, failed, Remotes, CreateInput, ProjectError, RepoUrl,
  create, create_of, git_project, empty_project, repo_url_create, url_given, Call, marks_ready,
  marks_failed, syncs, retries, converts, cancels, deletes, accepts_task, persists, step, run_calls,
  mark_clone_ready, mark_clone_failed, assert_can_sync, sync_baseline, retry_clone,
  convert_to_empty, cancel_clone, mark_deleted, assert_can_accept_task, mark_persisted, transition,
  emptied, repo_host, is_in, is_git, can_transition_to,
}

pub record IsSound (p : Project) : Type 0 where
  pub address : is_some p.repo_url ≡ is_git p.source_type
  pub branch : (is_git p.source_type ≡ true) ⊎ (p.repo_branch ≡ none)
  pub error : is_some p.clone_error_code ≡ is_in p.clone_status failed
  pub size : (is_in p.clone_status ready ≡ false) ⊎ (is_some p.baseline_size_bytes ≡ true)
  pub settled : (is_git p.source_type ≡ true) ⊎ (p.clone_status ≡ ready)

git_project-IsSound : (input : CreateInput) (url : RepoUrl) → IsSound (git_project input url)
unfolding git_project
git_project-IsSound input url = record {
  address = refl;
  branch = inl refl;
  error = refl;
  size = inl refl;
  settled = inl refl;
}

empty_project-IsSound : (input : CreateInput) → IsSound (empty_project input)
unfolding empty_project
empty_project-IsSound input = record {
  address = refl;
  branch = inr refl;
  error = refl;
  size = inr refl;
  settled = inr refl;
}

abbrev OkSound : Result ProjectError Project → Type 0
OkSound (ok p) = IsSound p
OkSound (err e) = Unit

IsSound-of_ok : (r : Result ProjectError Project) {p : Project} → r ≡ ok p → OkSound r → IsSound p
IsSound-of_ok (ok q) e h = subst IsSound (ok_injective e) h
IsSound-of_ok (err x) e h = cc

made_of-OkSound :
    (input : CreateInput) (r : Result ProjectError RepoUrl)
    → OkSound (r >>= λ url. ok (git_project input url))
made_of-OkSound input (ok url) = git_project-IsSound input url
made_of-OkSound input (err e) = tt

create_of-OkSound :
    (remotes : Remotes) (source : SourceType) (input : CreateInput)
    → OkSound (create_of remotes source input)
unfolding create_of
create_of-OkSound remotes git input = elim (Bool-cases (is_blank (url_given input.repo_url))) [
  | inl blank ↦ rw blank tt
  | inr given ↦
      rw given (made_of-OkSound input (repo_url_create remotes (url_given input.repo_url)))
]
create_of-OkSound remotes empty input = elim (Bool-cases (is_blank (url_given input.repo_url))) [
  | inl blank ↦ rw blank (empty_project-IsSound input)
  | inr given ↦ rw given tt
]

emptied-IsSound :
    (p : Project) (now : ℕ) (host : Result ProjectError (Option Text))
    → is_in p.clone_status failed ≡ true
    → IsSound p
    → IsSound (emptied now host p).0
unfolding emptied transition
emptied-IsSound p now (err e) broken h = h
emptied-IsSound p now (ok host) broken h =
    ground (arith, h.address, h.branch, h.error, h.size, h.settled)

convert-IsSound :
    (remotes : Remotes) (p : Project) (now : ℕ)
    → IsSound p
    → IsSound (convert_to_empty remotes now p).0
unfolding convert_to_empty
convert-IsSound remotes p now h = elim (Bool-cases (is_in p.clone_status failed)) [
  | inl broken ↦ rw broken (emptied-IsSound p now (repo_host remotes p.repo_url) broken h)
  | inr other ↦ rw other h
]

step-IsSound :
    (remotes : Remotes) (p : Project) (c : Call) → IsSound p → IsSound (step remotes p c).0
unfolding step mark_clone_ready mark_clone_failed sync_baseline assert_can_sync retry_clone
    transition cancel_clone mark_deleted assert_can_accept_task mark_persisted
step-IsSound remotes p (marks_ready size now) h =
    ground (arith, h.address, h.branch, h.error, h.size, h.settled)
step-IsSound remotes p (marks_failed code now) h =
    ground (arith, h.address, h.branch, h.error, h.size, h.settled)
step-IsSound remotes p (syncs size now) h =
    ground (arith, h.address, h.branch, h.error, h.size, h.settled)
step-IsSound remotes p (retries now) h =
    ground (arith, h.address, h.branch, h.error, h.size, h.settled)
step-IsSound remotes p (converts now) h = convert-IsSound remotes p now h
step-IsSound remotes p (cancels now) h =
    ground (arith, h.address, h.branch, h.error, h.size, h.settled)
step-IsSound remotes p (deletes kept now) h = record {
  address = h.address;
  branch = h.branch;
  error = h.error;
  size = h.size;
  settled = h.settled;
}
step-IsSound remotes p accepts_task h =
    ground (arith, h.address, h.branch, h.error, h.size, h.settled)
step-IsSound remotes p (persists version) h = record {
  address = h.address;
  branch = h.branch;
  error = h.error;
  size = h.size;
  settled = h.settled;
}

run_calls-IsSound_from :
    (remotes : Remotes) (cs : List Call) (p : Project)
    → IsSound p
    → IsSound (run_calls remotes p cs)
run_calls-IsSound_from remotes [] p h = h
run_calls-IsSound_from remotes (c ∷ cs) p h =
    run_calls-IsSound_from remotes cs (step remotes p c).0 (step-IsSound remotes p c h)

-- After any calls on a project that create returned, with errors or without: it has an address exactly if
-- its source is git; an empty one has no branch and is ready; it has an error code exactly while it is
-- failed; and while it is ready its size is known.
pub run_calls-IsSound :
    (remotes : Remotes) (input : CreateInput) {p : Project} (cs : List Call)
    → create remotes input ≡ ok p
    → IsSound (run_calls remotes p cs)
unfolding create
run_calls-IsSound remotes input {p} cs e = run_calls-IsSound_from remotes cs p (
    IsSound-of_ok (create_of remotes input.source_type input) e
      (create_of-OkSound remotes input.source_type input))

-- The status stayed or took an edge of the table; where it was thrown, nothing changed.
abbrev pub Moves : Project → Outcome Project ProjectError → Type 0
Moves p (q, thrown) =
    ((q.clone_status ≡ p.clone_status) ⊎ (can_transition_to p.clone_status q.clone_status ≡ true))
    × ((thrown ≡ none) ⊎ (q ≡ p))

emptied-Moves :
    (p : Project) (now : ℕ) (host : Result ProjectError (Option Text))
    → Moves p (emptied now host p)
unfolding emptied transition
emptied-Moves p now (err e) = (inl refl, inr refl)
emptied-Moves p now (ok host) = ground arith

convert-Moves :
    (remotes : Remotes) (p : Project) (now : ℕ) → Moves p (convert_to_empty remotes now p)
unfolding convert_to_empty
convert-Moves remotes p now = elim (Bool-cases (is_in p.clone_status failed)) [
  | inl broken ↦ rw broken (emptied-Moves p now (repo_host remotes p.repo_url))
  | inr other ↦ rw other (inl refl, inr refl)
]

-- Every call moves the status of a project along the table of transitions or leaves it; and a call that
-- throws changes nothing.
pub step-Moves : (remotes : Remotes) (p : Project) (c : Call) → Moves p (step remotes p c)
unfolding step mark_clone_ready mark_clone_failed sync_baseline assert_can_sync retry_clone
    transition cancel_clone mark_deleted assert_can_accept_task mark_persisted
step-Moves remotes p (marks_ready size now) = ground arith
step-Moves remotes p (marks_failed code now) = ground arith
step-Moves remotes p (syncs size now) = ground arith
step-Moves remotes p (retries now) = ground arith
step-Moves remotes p (converts now) = convert-Moves remotes p now
step-Moves remotes p (cancels now) = ground arith
step-Moves remotes p (deletes kept now) = (inl refl, inl refl)
step-Moves remotes p accepts_task = ground arith
step-Moves remotes p (persists version) = (inl refl, inl refl)
