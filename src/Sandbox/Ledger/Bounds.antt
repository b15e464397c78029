-- ===== src/Sandbox/Ledger/Bounds.antt =====
-- The pool is never given out beyond its totals.

use agent_platform_api.Common.{
  ℕ, ◌+◌, ◌≤◌, ◌≡◌, refl, sym, ◌∙◌, ap, subst, inl, inr, true, false, ◌||◌, ◌==◌, map, sum_by,
  Option, none, some, List, [], ◌∷◌, ◌++◌, Result, ok, err, ok_injective, >>=-eq-ok, Bool-cases,
  arith, ==_iff,
}
use agent_platform_api.Sandbox.Pool.{
  ResourceQuota, ResourcePoolSnapshot, SchedulingVerdict, admitted, refused, snapshot_of, exceeds,
}
use agent_platform_api.Sandbox.Ledger.{
  ResourceAllocation, Ledger, LedgerError, Context, ReserveInput, Job, reserves, releases,
  releases_as_orphan, confirms_active, allocate, save, has_id, overwrite, violates_active,
  is_active, list_active, snapshot, evaluate, committed, reserve, step, run_jobs, quota_of,
  also_in_tx, admission, reservation,
}
use agent_platform_api.Sandbox.Pool.Admission.{try_schedule-Fits, FitsDisk-exceeds}
use agent_platform_api.Sandbox.Ledger.Rows.{Distinct, save-Distinct, active_sum, active_sum-append}
use agent_platform_api.Sandbox.Ledger.Jobs.{Lowers, step-Kept, is_reserve}

-- What is given out is within the totals.
abbrev pub WithinTotals : ResourcePoolSnapshot → Type 0
WithinTotals pool =
    (pool.used_cores ≤ pool.total_cores)
    × (pool.used_ram_mb ≤ pool.total_ram_mb)
    × (exceeds pool.used_disk_mb pool.total_disk_mb ≡ false)

-- Each reservation has an identifier that no row has.
abbrev pub IsFresh : Context → Ledger → List Job → Type 0
IsFresh c rows [] = Unit
IsFresh c rows (reserves input ∷ js) =
    (has_id input.id rows ≡ false) × IsFresh c (step c rows (reserves input)).0 js
IsFresh c rows (j ∷ js) = IsFresh c (step c rows j).0 js

sum_by-map :
    (f : ResourceQuota → ℕ) (rows : Ledger)
    → sum_by f (map quota_of rows) ≡ sum_by (λ r. f (quota_of r)) rows
sum_by-map f [] = refl
sum_by-map f (r ∷ rest) = omega (arith, sum_by-map f rest)

-- A dimension of the quota does not change when a row is written again.
dimension_stays :
    (f : ResourceQuota → ℕ) (a r : ResourceAllocation)
    → f (quota_of (overwrite a r)) ≡ f (quota_of r)
dimension_stays f a r = elim (Bool-cases (r.id == a.id)) [
  | inl same ↦ rw same
  | inr other ↦ rw other
]

less_exceeds :
    (a b : ℕ) (total : Option ℕ) → a ≤ b → exceeds b total ≡ false → exceeds a total ≡ false
less_exceeds a b none h k = refl
less_exceeds a b (some total) h k = ground arith

-- What the active rows of a node take in one dimension.
abbrev used : (ResourceQuota → ℕ) → ℕ → Ledger → ℕ
used f node_id rows = sum_by f (map quota_of (list_active node_id rows))

used-Lowers :
    (f : ResourceQuota → ℕ) (node_id : ℕ) (rows written : Ledger)
    → Lowers rows written
    → used f node_id written ≤ used f node_id rows
used-Lowers f node_id rows written h = omega (
  arith,
  h (λ r. f (quota_of r)) node_id (dimension_stays f),
  sum_by-map f (list_active node_id written),
  sum_by-map f (list_active node_id rows),
)

snapshot-Lowers :
    (c : Context) (rows written : Ledger)
    → Lowers rows written
    → WithinTotals (snapshot c rows)
    → WithinTotals (snapshot c written)
unfolding snapshot snapshot_of
snapshot-Lowers c rows written h (w1, w2, w3) = (
  omega (arith, w1, used-Lowers (λ q. q.cores) c.node_id rows written h),
  omega (arith, w2, used-Lowers (λ q. q.ram_mb) c.node_id rows written h),
  less_exceeds _ _ _ (used-Lowers (λ q. q.disk_mb) c.node_id rows written h) w3,
)

used-append :
    (f : ResourceQuota → ℕ) (rows : Ledger) (a : ResourceAllocation)
    → is_active a ≡ true
    → used f a.node_id (rows ++ a ∷ []) ≡ used f a.node_id rows + f (quota_of a)
unfolding list_active
used-append f rows a up =
    let own : (a.node_id == a.node_id) ≡ true = (==_iff a.node_id a.node_id).1 refl in
    let alone : active_sum (λ r. f (quota_of r)) a.node_id (a ∷ []) ≡ f (quota_of a) + 0 =
      rw own (rw up refl) in
    omega (
      arith,
      alone,
      active_sum-append (λ r. f (quota_of r)) a.node_id rows a,
      sum_by-map f (list_active a.node_id (rows ++ a ∷ [])),
      sum_by-map f (list_active a.node_id rows),
    )

admission-ok : (v : SchedulingVerdict) {u : Unit {0}} → admission v ≡ ok u → v ≡ admitted
admission-ok admitted h = refl
admission-ok (refused shortage) h = cc

pub allocate-fields :
    (id sandbox_id node_id : ℕ) (q : ResourceQuota) (now : ℕ) {a : ResourceAllocation}
    → allocate id sandbox_id node_id q now ≡ ok a
    → (a.id ≡ id) × (a.node_id ≡ node_id) × (is_active a ≡ true) × (quota_of a ≡ q)
unfolding allocate
allocate-fields id sandbox_id node_id q now h =
    elim (Bool-cases (q.cores == 0 || q.ram_mb == 0 || q.disk_mb == 0)) [
      | inl none_left ↦ let e = rw none_left at h in cc
      | inr positive ↦
          subst (λ a. (a.id ≡ id) × (a.node_id ≡ node_id) × (is_active a ≡ true) × (quota_of a ≡ q))
            (ok_injective (rw positive at h)) (refl, refl, refl, refl)
    ]

pub save-fresh :
    (a : ResourceAllocation) (rows : Ledger) {written : Ledger}
    → save a rows ≡ ok written
    → has_id a.id rows ≡ false
    → rows ++ a ∷ [] ≡ written
unfolding save
save-fresh a rows h fresh = elim (Bool-cases (violates_active a rows)) [
  | inl bad ↦ let e = rw bad at h in cc
  | inr fine ↦ ok_injective (rw fresh at (rw fine at h))
]

used_reserved :
    (f : ResourceQuota → ℕ) (node_id : ℕ) (q : ResourceQuota) (rows : Ledger)
    (a : ResourceAllocation)
    → a.node_id ≡ node_id
    → is_active a ≡ true
    → quota_of a ≡ q
    → used f node_id (rows ++ a ∷ []) ≡ used f node_id rows + f q
used_reserved f node_id q rows a node up quota =
    subst (λ n. used f n (rows ++ a ∷ []) ≡ used f n rows + f q) node
      (used-append f rows a up ∙ ap (λ x. used f a.node_id rows + f x) quota)

-- A request that fits leaves the pool within its totals when its row is added.
reserved_within :
    (c : Context) (q : ResourceQuota) (rows : Ledger) (a : ResourceAllocation)
    → evaluate c q rows ≡ admitted
    → a.node_id ≡ c.node_id
    → is_active a ≡ true
    → quota_of a ≡ q
    → WithinTotals (snapshot c (rows ++ a ∷ []))
unfolding evaluate snapshot snapshot_of
reserved_within c q rows a admits node up quota =
    let (cpu, ram, disk, free) =
      (try_schedule-Fits q (snapshot c rows) c.host.disk_available_bytes c.policy).0 admits in
    (
      omega (arith, cpu, used_reserved (λ x. x.cores) c.node_id q rows a node up quota),
      omega (arith, ram, used_reserved (λ x. x.ram_mb) c.node_id q rows a node up quota),
      subst (λ n. exceeds n (snapshot c rows).total_disk_mb ≡ false)
          (sym (used_reserved (λ x. x.disk_mb) c.node_id q rows a node up quota))
          (FitsDisk-exceeds _ (snapshot c rows).total_disk_mb disk),
    )

abbrev pub IsSafe : Context → Ledger → Type 0
IsSafe c rows = Distinct rows × WithinTotals (snapshot c rows)

committed-IsSafe :
    (c : Context) (rows : Ledger) (r : Result LedgerError Ledger)
    → IsSafe c rows
    → ((written : Ledger) → r ≡ ok written → IsSafe c written)
    → IsSafe c (committed rows r).0
committed-IsSafe c rows (ok written) h k = k written refl
committed-IsSafe c rows (err e) h k = h

pub reservation-IsSafe :
    (c : Context) (input : ReserveInput) (rows : Ledger) {written : Ledger}
    → has_id input.id rows ≡ false
    → Distinct rows
    → reservation c input rows ≡ ok written
    → IsSafe c written
unfolding reservation
reservation-IsSafe c input rows fresh d h =
    let (u, e1, h1) = >>=-eq-ok (admission (evaluate c input.quota rows)) _ h in
    let (a, e2, h2) =
      >>=-eq-ok (allocate input.id input.sandbox_id c.node_id input.quota input.now) _ h1 in
    let (v, e3, saved) = >>=-eq-ok (also_in_tx input.caller_succeeds) _ h2 in
    let (id, node, up, quota) =
      allocate-fields input.id input.sandbox_id c.node_id input.quota input.now e2 in
    (
      save-Distinct a rows saved d,
      subst (λ x. WithinTotals (snapshot c x))
          (save-fresh a rows saved (subst (λ i. has_id i rows ≡ false) (sym id) fresh))
          (reserved_within c input.quota rows a (admission-ok _ e1) node up quota),
    )

reserve-IsSafe :
    (c : Context) (input : ReserveInput) (rows : Ledger)
    → has_id input.id rows ≡ false
    → IsSafe c rows
    → IsSafe c (reserve c input rows).0
unfolding reserve
reserve-IsSafe c input rows fresh (d, w) =
    committed-IsSafe c rows (reservation c input rows) (d, w)
      (λ written h. reservation-IsSafe c input rows fresh d h)

step_reserve-IsSafe :
    (c : Context) (input : ReserveInput) (rows : Ledger)
    → has_id input.id rows ≡ false
    → IsSafe c rows
    → IsSafe c (step c rows (reserves input)).0
unfolding step
step_reserve-IsSafe c input rows fresh h = reserve-IsSafe c input rows fresh h

other-IsSafe :
    (c : Context) (rows : Ledger) (j : Job)
    → is_reserve j ≡ false
    → IsSafe c rows
    → IsSafe c (step c rows j).0
other-IsSafe c rows j k (d, w) =
    let (kept, lowers) = step-Kept c rows j k d in (kept, snapshot-Lowers c rows _ lowers w)

-- However the jobs of the allocator follow one another, those that throw included, on one host with one
-- policy, with distinct identifiers in the rows at the start and each reservation with an identifier
-- that no row has: if the active rows of the node are within the totals of the pool, they stay so, in
-- processors, memory and disk.
pub run_jobs-WithinTotals :
    (c : Context) (rows : Ledger) (js : List Job)
    → IsFresh c rows js
    → Distinct rows
    → WithinTotals (snapshot c rows)
    → WithinTotals (snapshot c (run_jobs c rows js))
unfolding run_jobs
run_jobs-WithinTotals c rows [] fresh d w = w
run_jobs-WithinTotals c rows (reserves input ∷ js) fresh d w =
    let (d', w') = step_reserve-IsSafe c input rows fresh.0 (d, w) in
    run_jobs-WithinTotals c (step c rows (reserves input)).0 js fresh.1 d' w'
run_jobs-WithinTotals c rows (releases s now ∷ js) fresh d w =
    let (d', w') = other-IsSafe c rows (releases s now) refl (d, w) in
    run_jobs-WithinTotals c (step c rows (releases s now)).0 js fresh d' w'
run_jobs-WithinTotals c rows (releases_as_orphan s fine now ∷ js) fresh d w =
    let (d', w') = other-IsSafe c rows (releases_as_orphan s fine now) refl (d, w) in
    run_jobs-WithinTotals c (step c rows (releases_as_orphan s fine now)).0 js fresh d' w'
run_jobs-WithinTotals c rows (confirms_active s ∷ js) fresh d w =
    let (d', w') = other-IsSafe c rows (confirms_active s) refl (d, w) in
    run_jobs-WithinTotals c (step c rows (confirms_active s)).0 js fresh d' w'
