-- ===== src/Sandbox/Ledger/Jobs.antt =====
-- The jobs that give back or confirm: they take nothing more of the pool.
use agent_platform_api.Common.{
  ℕ, ◌≤◌, ◌≡◌, refl, sym, ◌∙◌, subst, inl, inr, Bool, true, false, not, ◌&&◌, ◌||◌, ◌==◌, all, some,
  is_some, [], ◌∷◌, Result, ok, err, ok_injective, >>=-eq-ok, Bool-cases, Option-cases, arith,
  both_true,
}
use agent_platform_api.Sandbox.Ledger.{
  ResourceAllocation, Ledger, LedgerError, Context, Job, reserves, releases, releases_as_orphan,
  confirms_active, release_allocation, confirm, mark_orphaned, save, has_id, overwrite,
  violates_active, is_active, find_active_by_sandbox, committed, on_active, on_found, release,
  release_as_orphan, confirm_active, step, also_in_tx,
}
use agent_platform_api.Sandbox.Ledger.Rows.{
  Distinct, save-Distinct, active_sum, active_sum-map, find_active-keys,
}

-- A write that takes nothing more of the pool: what the rows add up to does not rise.
abbrev pub Lowers : Ledger → Ledger → Type 0
Lowers rows written =
    (f : ResourceAllocation → ℕ) (node_id : ℕ)
    → ((a r : ResourceAllocation) → f (overwrite a r) ≡ f r)
    → active_sum f node_id written ≤ active_sum f node_id rows

save-Lowers :
    (a : ResourceAllocation) (rows : Ledger) {written : Ledger}
    → save a rows ≡ ok written
    → has_id a.id rows ≡ true
    → all (λ r. not (r.id == a.id && is_active a) || is_active r) rows ≡ true
    → Lowers rows written
unfolding save
save-Lowers a rows h known keys f node_id k = elim (Bool-cases (violates_active a rows)) [
  | inl bad ↦ let e = rw bad at h in cc
  | inr fine ↦
      subst (λ w. active_sum f node_id w ≤ active_sum f node_id rows)
        (ok_injective (rw known at (rw fine at h))) (active_sum-map f node_id a rows (k a) keys)
]

released_row :
    (same alive : Bool) {active others : Bool}
    → active ≡ false
    → others ≡ true
    → ((not (same && active) || alive) && others) ≡ true
released_row true alive h k = rw h k
released_row false alive h k = k

-- A released row makes no row active, whatever its key.
keys_released :
    (a : ResourceAllocation) (rows : Ledger)
    → is_active a ≡ false
    → all (λ r. not (r.id == a.id && is_active a) || is_active r) rows ≡ true
keys_released a [] h = refl
keys_released a (r ∷ rest) h = released_row (r.id == a.id) (is_active r) h (keys_released a rest h)

active_row :
    (same active alive : Bool) {others : Bool}
    → (not same || alive) ≡ true
    → others ≡ true
    → ((not (same && active) || alive) && others) ≡ true
active_row true true alive h k = rw h k
active_row true false alive h k = k
active_row false active alive h k = k

keys_active :
    (a : ResourceAllocation) (rows : Ledger)
    → all (λ r. not (r.id == a.id) || is_active r) rows ≡ true
    → all (λ r. not (r.id == a.id && is_active a) || is_active r) rows ≡ true
keys_active a [] h = refl
keys_active a (r ∷ rest) h =
    let (here, there) = both_true h in
    active_row (r.id == a.id) (is_active a) (is_active r) here (keys_active a rest there)

-- What a job that is not a reservation leaves: distinct keys, and no more of the pool taken.
abbrev pub Kept : Ledger → Ledger → Type 0
Kept rows written = Distinct written × Lowers rows written

Kept-refl : (rows : Ledger) → Distinct rows → Kept rows rows
Kept-refl rows d = (d, λ f node_id k. omega arith)

committed-Kept :
    (rows : Ledger) (r : Result LedgerError Ledger)
    → Distinct rows
    → ((written : Ledger) → r ≡ ok written → Kept rows written)
    → Kept rows (committed rows r).0
committed-Kept rows (ok written) d h = h written refl
committed-Kept rows (err e) d h = Kept-refl rows d

on_active-Kept :
    (s : ℕ) (rows : Ledger) (body : ResourceAllocation → Result LedgerError Ledger)
    → Distinct rows
    → ((a : ResourceAllocation) (written : Ledger)
        → find_active_by_sandbox s rows ≡ some a
        → body a ≡ ok written
        → Kept rows written)
    → Kept rows (on_active s rows body).0
on_active-Kept s rows body d h = elim (Option-cases (find_active_by_sandbox s rows)) [
  | inl missing ↦ subst (λ o. Kept rows (on_found o rows body).0) (sym missing) (Kept-refl rows d)
  | inr (a, found) ↦
      subst (λ o. Kept rows (on_found o rows body).0) (sym found)
        (committed-Kept rows (body a) d (λ written e. h a written found e))
]

pub release-fields :
    (b : ResourceAllocation) (at : ℕ) {released : ResourceAllocation}
    → release_allocation b at ≡ ok released
    → (released.id ≡ b.id) × (is_active released ≡ false)
unfolding release_allocation
release-fields b at h = elim (Bool-cases (is_some b.released_at)) [
  | inl again ↦ let e = rw again at h in cc
  | inr first ↦
      subst (λ r. (r.id ≡ b.id) × (is_active r ≡ false)) (ok_injective (rw first at h)) (refl, refl)
]

-- The row that is found, written back released.
save_released :
    (s at : ℕ) (rows : Ledger) (a b : ResourceAllocation) {released : ResourceAllocation}
    {written : Ledger}
    → Distinct rows
    → find_active_by_sandbox s rows ≡ some a
    → b.id ≡ a.id
    → release_allocation b at ≡ ok released
    → save released rows ≡ ok written
    → Kept rows written
save_released s at rows a b {released} d found same e saved =
    let (id, gone) = release-fields b at e in
    let (known, alive, keys) = find_active-keys s rows a d found in
    (
      save-Distinct released rows saved d,
      save-Lowers released rows saved (subst (λ i. has_id i rows ≡ true) (sym (id ∙ same)) known)
          (keys_released released rows gone),
    )

-- The row that is found, written back confirmed.
save_confirmed :
    (s : ℕ) (rows : Ledger) (a : ResourceAllocation) {written : Ledger}
    → Distinct rows
    → find_active_by_sandbox s rows ≡ some a
    → save (confirm a) rows ≡ ok written
    → Kept rows written
unfolding confirm
save_confirmed s rows a d found saved =
    let (known, alive, keys) = find_active-keys s rows a d found in
    (
      save-Distinct (confirm a) rows saved d,
      save-Lowers (confirm a) rows saved known (keys_active (confirm a) rows keys),
    )

abbrev pub is_reserve : Job → Bool
is_reserve (reserves input) = true
is_reserve _ = false

-- Every job but a reservation keeps the keys distinct and takes nothing more of the pool, also where it
-- throws.
pub step-Kept :
    (c : Context) (rows : Ledger) (j : Job)
    → is_reserve j ≡ false
    → Distinct rows
    → Kept rows (step c rows j).0
unfolding step release release_as_orphan confirm_active mark_orphaned
step-Kept c rows (reserves input) k d = cc
step-Kept c rows (releases s now) k d = on_active-Kept s rows _ d (λ a written found e.
    let (released, e1, e2) = >>=-eq-ok (release_allocation a now) _ e in
    save_released s now rows a a d found refl e1 e2)
step-Kept c rows (releases_as_orphan s fine now) k d =
    on_active-Kept s rows _ d (λ a written found e.
      let (released, e1, e2) = >>=-eq-ok (release_allocation (mark_orphaned a) now) _ e in
      let (saved, e3, e4) = >>=-eq-ok (save released rows) _ e2 in
      let (done, e5, e6) = >>=-eq-ok (also_in_tx fine) _ e4 in
      subst (Kept rows) (ok_injective e6)
        (save_released s now rows a (mark_orphaned a) d found refl e1 e3))
step-Kept c rows (confirms_active s) k d =
    on_active-Kept s rows _ d (λ a written found e. save_confirmed s rows a d found e)
