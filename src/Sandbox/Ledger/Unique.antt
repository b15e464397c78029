-- ===== src/Sandbox/Ledger/Unique.antt =====
-- A sandbox has one active row at most (I-RA-2).
use agent_platform_api.Common.{
  ℕ, ◌≤◌, ◌≡◌, refl, sym, subst, inl, inr, Bool, true, false, not, ◌&&◌, ◌==◌, any, List, [], ◌∷◌,
  ◌++◌, Result, ok, err, >>=-eq-ok, Bool-cases, arith, if◌then◌else◌, ==_iff,
}
use agent_platform_api.Sandbox.Ledger.{
  ResourceAllocation, Ledger, LedgerError, Context, ReserveInput, Job, reserves, releases,
  releases_as_orphan, confirms_active, allocate, save, has_id, overwrite, violates_active,
  is_active, is_active_of, list_active, committed, reservation, reserve, step, run_jobs, admission,
  evaluate, also_in_tx,
}
use agent_platform_api.Sandbox.Ledger.Rows.{
  Distinct, active_sum, active_sum-append, active_sum-cons, share,
}
use agent_platform_api.Sandbox.Ledger.Jobs.{step-Kept, is_reserve}
use agent_platform_api.Sandbox.Ledger.Bounds.{
  IsFresh, allocate-fields, save-fresh, reservation-IsSafe,
}

-- One for a row of the sandbox.
abbrev of_sandbox : ℕ → ResourceAllocation → ℕ
of_sandbox s r = if r.sandbox_id == s then 1 else 0

-- The number of active rows of a sandbox on a node.
abbrev pub active_count : ℕ → ℕ → Ledger → ℕ
active_count s node_id rows = active_sum (of_sandbox s) node_id rows

-- On a node, no sandbox has more than one active row.
abbrev pub OneActive : ℕ → Ledger → Type 0
OneActive node_id rows = (s : ℕ) → active_count s node_id rows ≤ 1

sandbox_stays : (s : ℕ) (a r : ResourceAllocation) → of_sandbox s (overwrite a r) ≡ of_sandbox s r
sandbox_stays s a r = elim (Bool-cases (r.id == a.id)) [ inl same ↦ rw same | inr other ↦ rw other ]

free_row :
    (here up own : Bool)
    → (own && up) ≡ false
    → ◌≡◌ {A = ℕ} (if here && up then (if own then 1 else 0) else 0) 0
free_row true true true h = cc
free_row true true false h = refl
free_row true false own h = refl
free_row false up own h = refl

share_free :
    (s node_id : ℕ) (r : ResourceAllocation)
    → is_active_of s r ≡ false
    → share (of_sandbox s) node_id r ≡ 0
share_free s node_id r h = free_row (r.node_id == node_id) (is_active r) (r.sandbox_id == s) h

single_row : (b : Bool) (n : ℕ) → (if b then n else 0) ≤ n
single_row true n = omega arith
single_row false n = omega arith

-- Where the index is not violated by a new row, its sandbox has no active row.
count_free :
    (a : ResourceAllocation) (node_id : ℕ) (rows : Ledger)
    → has_id a.id rows ≡ false
    → any (λ r. not (r.id == a.id) && is_active_of a.sandbox_id r) rows ≡ false
    → active_count a.sandbox_id node_id rows ≡ 0
unfolding list_active
count_free a node_id [] fresh free = refl
count_free a node_id (r ∷ rest) fresh free = elim (Bool-cases (r.id == a.id)) [
  | inl same ↦ let e = rw same at fresh in cc
  | inr other ↦ elim (Bool-cases (is_active_of a.sandbox_id r)) [
    | inl taken ↦ let e = rw taken at (rw other at free) in cc
    | inr idle ↦ omega (
      arith,
      active_sum-cons (of_sandbox a.sandbox_id) node_id r rest,
      share_free a.sandbox_id node_id r idle,
      count_free a node_id rest (rw other at fresh) (rw idle at (rw other at free)),
    )
  ]
]

save-free :
    (a : ResourceAllocation) (rows : Ledger) (node_id : ℕ) {written : Ledger}
    → save a rows ≡ ok written
    → has_id a.id rows ≡ false
    → is_active a ≡ true
    → active_count a.sandbox_id node_id rows ≡ 0
unfolding save
save-free a rows node_id h fresh up = elim (Bool-cases (violates_active a rows)) [
  | inl bad ↦ let e = rw bad at h in cc
  | inr fine ↦ count_free a node_id rows fresh (rw up at fine)
]

count_single :
    (s node_id : ℕ) (a : ResourceAllocation) → active_count s node_id (a ∷ []) ≤ of_sandbox s a
unfolding list_active
count_single s node_id a = omega (
  arith,
  active_sum-cons (of_sandbox s) node_id a [],
  single_row (a.node_id == node_id && is_active a) (of_sandbox s a),
)

append-OneActive :
    (a : ResourceAllocation) (rows : Ledger) (node_id : ℕ)
    → active_count a.sandbox_id node_id rows ≡ 0
    → OneActive node_id rows
    → OneActive node_id (rows ++ a ∷ [])
append-OneActive a rows node_id free one s =
    let added = active_sum-append (of_sandbox s) node_id rows a in
    let alone = count_single s node_id a in
    elim (Bool-cases (a.sandbox_id == s)) [
      | inl own ↦
          let none_yet =
            subst (λ x. active_count x node_id rows ≡ 0) ((==_iff a.sandbox_id s).0 own) free in
          let at_most = rw own at alone in omega (arith, added, at_most, none_yet)
      | inr other ↦ let nothing = rw other at alone in omega (arith, added, nothing, one s)
    ]

reservation-OneActive :
    (c : Context) (input : ReserveInput) (rows : Ledger) {written : Ledger}
    → has_id input.id rows ≡ false
    → OneActive c.node_id rows
    → reservation c input rows ≡ ok written
    → OneActive c.node_id written
unfolding reservation
reservation-OneActive c input rows fresh one h =
    let (u, e1, h1) = >>=-eq-ok (admission (evaluate c input.quota rows)) _ h in
    let (a, e2, h2) =
      >>=-eq-ok (allocate input.id input.sandbox_id c.node_id input.quota input.now) _ h1 in
    let (v, e3, saved) = >>=-eq-ok (also_in_tx input.caller_succeeds) _ h2 in
    let (id, node, up, quota) =
      allocate-fields input.id input.sandbox_id c.node_id input.quota input.now e2 in
    let new = subst (λ i. has_id i rows ≡ false) (sym id) fresh in
    subst (OneActive c.node_id) (save-fresh a rows saved new)
      (append-OneActive a rows c.node_id (save-free a rows c.node_id saved new up) one)

committed-OneActive :
    (node_id : ℕ) (rows : Ledger) (r : Result LedgerError Ledger)
    → OneActive node_id rows
    → ((written : Ledger) → r ≡ ok written → OneActive node_id written)
    → OneActive node_id (committed rows r).0
committed-OneActive node_id rows (ok written) h k = k written refl
committed-OneActive node_id rows (err e) h k = h

committed-Distinct :
    (rows : Ledger) (r : Result LedgerError Ledger)
    → Distinct rows
    → ((written : Ledger) → r ≡ ok written → Distinct written)
    → Distinct (committed rows r).0
committed-Distinct rows (ok written) h k = k written refl
committed-Distinct rows (err e) h k = h

step_reserve-OneActive :
    (c : Context) (input : ReserveInput) (rows : Ledger)
    → has_id input.id rows ≡ false
    → Distinct rows
    → OneActive c.node_id rows
    → Distinct (step c rows (reserves input)).0
      × OneActive c.node_id (step c rows (reserves input)).0
unfolding step reserve
step_reserve-OneActive c input rows fresh d one = (
  committed-Distinct rows (reservation c input rows) d
      (λ written h. (reservation-IsSafe c input rows fresh d h).0),
  committed-OneActive c.node_id rows (reservation c input rows) one
      (λ written h. reservation-OneActive c input rows fresh one h),
)

other-OneActive :
    (c : Context) (rows : Ledger) (j : Job)
    → is_reserve j ≡ false
    → Distinct rows
    → OneActive c.node_id rows
    → Distinct (step c rows j).0 × OneActive c.node_id (step c rows j).0
other-OneActive c rows j k d one =
    let (kept, lowers) = step-Kept c rows j k d in
    (kept, λ s. omega (arith, lowers (of_sandbox s) c.node_id (sandbox_stays s), one s))

-- However the jobs of the allocator follow one another, those that throw included, with distinct
-- identifiers in the rows at the start and each reservation with an identifier that no row has: if no
-- sandbox has more than one active row on the node, none ever has.
pub run_jobs-OneActive :
    (c : Context) (rows : Ledger) (js : List Job)
    → IsFresh c rows js
    → Distinct rows
    → OneActive c.node_id rows
    → OneActive c.node_id (run_jobs c rows js)
unfolding run_jobs
run_jobs-OneActive c rows [] fresh d one = one
run_jobs-OneActive c rows (reserves input ∷ js) fresh d one =
    let (d', one') = step_reserve-OneActive c input rows fresh.0 d one in
    run_jobs-OneActive c (step c rows (reserves input)).0 js fresh.1 d' one'
run_jobs-OneActive c rows (releases s now ∷ js) fresh d one =
    let (d', one') = other-OneActive c rows (releases s now) refl d one in
    run_jobs-OneActive c (step c rows (releases s now)).0 js fresh d' one'
run_jobs-OneActive c rows (releases_as_orphan s fine now ∷ js) fresh d one =
    let (d', one') = other-OneActive c rows (releases_as_orphan s fine now) refl d one in
    run_jobs-OneActive c (step c rows (releases_as_orphan s fine now)).0 js fresh d' one'
run_jobs-OneActive c rows (confirms_active s ∷ js) fresh d one =
    let (d', one') = other-OneActive c rows (confirms_active s) refl d one in
    run_jobs-OneActive c (step c rows (confirms_active s)).0 js fresh d' one'
