-- ===== src/Sandbox/Reconciler/Spared.antt =====
-- A round takes nothing from a sandbox that it has not found to be gone.
use agent_platform_api.Common.{
  get_or, All, then_do_keeps, ℕ, Bool, true, false, not, ◌&&◌, ◌||◌, ◌==◌, ==_iff, any, all, map,
  some, List, [], ◌∷◌, ◌++◌, Result, ok, err, ◌≡◌, refl, subst, sym, ap, inl, inr, Bool-cases,
  Option-cases, arith, both_true, ok_injective, >>=-eq-ok,
}
use agent_platform_api.Sandbox.Ledger.{
  ResourceAllocation, Ledger, LedgerError, save, overwrite, has_id, is_active, is_active_of,
  violates_active, committed, on_found, on_active, find_active_by_sandbox, confirm, confirm_active,
  release_allocation, mark_orphaned, release_as_orphan, also_in_tx, list_active,
}
use agent_platform_api.Sandbox.Ledger.Rows.{Distinct, save-Distinct, find_active-keys}
use agent_platform_api.Sandbox.Ledger.Jobs.{release-fields}
use agent_platform_api.Sandbox.Reconciler.{
  Round, Judge, Verdict, alive, gone, unknown, settle_verdict, check, reconcile,
  reconcile_incremental, due_rows,
}

-- The sandbox holds a quota.
abbrev pub holds : ℕ → Ledger → Bool
holds x rows = any (is_active_of x) rows

-- The rows with the identifier belong to the sandbox.
abbrev belongs_to : ℕ → ℕ → Ledger → Bool
belongs_to y id rows = all (λ r. not (r.id == id) || r.sandbox_id == y) rows

fresh_belongs : (y id : ℕ) (rows : Ledger) → has_id id rows ≡ false → belongs_to y id rows ≡ true
fresh_belongs y id [] h = refl
fresh_belongs y id (r ∷ rest) h = elim (Bool-cases (r.id == id)) [
  | inl same ↦ let e = rw same at h in cc
  | inr other ↦ rw other (fresh_belongs y id rest (rw other at h))
]

or_left : (a b : Bool) → a ≡ true → (a || b) ≡ true
or_left true b h = refl
or_left false b h = cc

or_right : (a b : Bool) → b ≡ true → (a || b) ≡ true
or_right true b h = refl
or_right false b h = h

implied : (p q : Bool) → p ≡ true → (not p || q) ≡ true → q ≡ true
implied true q h k = k
implied false q h k = cc

and_both : (a b : Bool) → a ≡ true → b ≡ true → (a && b) ≡ true
and_both true b h k = k
and_both false b h k = cc

not_both : (x y z : ℕ) → (x == y) ≡ false → (z == x) ≡ true → (z == y) ≡ true → ⊥
not_both x y z p q r = ground (arith, p, q, r)

found_belongs :
    (y : ℕ) (rows : Ledger) (a : ResourceAllocation)
    → Distinct rows
    → find_active_by_sandbox y rows ≡ some a
    → belongs_to y a.id rows ≡ true
unfolding find_active_by_sandbox
found_belongs y [] a d h = refl
found_belongs y (r ∷ rest) a d h = elim (Bool-cases (is_active_of y r)) [
  | inl found ↦
      subst (λ x. belongs_to y x.id (r ∷ rest) ≡ true) (ap (λ o. get_or o r) (rw found at h))
        (and_both _ _ (or_right (not (r.id == r.id)) _ (both_true found).0)
          (fresh_belongs y r.id rest d.0))
  | inr later ↦
      let (known, up, keys) = find_active-keys y rest a d.1 (rw later at h) in
      elim (Bool-cases (r.id == a.id)) [
        | inl same ↦
            let clash = subst (λ i. has_id i rest ≡ false) ((==_iff r.id a.id).0 same) d.0 in cc
        | inr other ↦ rw other (found_belongs y rest a d.1 (rw later at h))
      ]
]

-- A row of another sandbox is written.
others_hold :
    (x y : ℕ) (b : ResourceAllocation) (rows : Ledger)
    → (x == y) ≡ false
    → belongs_to y b.id rows ≡ true
    → holds x rows ≡ true
    → holds x (map (overwrite b) rows) ≡ true
others_hold x y b [] other own h = h
others_hold x y b (r ∷ rest) other own h =
    let (mine, rest_own) = both_true {a = not (r.id == b.id) || r.sandbox_id == y} own in
    elim (Bool-cases (is_active_of x r)) [
      | inl here ↦ elim (Bool-cases (r.id == b.id)) [
        | inl same ↦
            absurd (not_both x y r.sandbox_id other (both_true here).0 (implied _ _ same mine))
        | inr differs ↦
            rw differs (or_left (is_active_of x r) (holds x (map (overwrite b) rest)) here)
      ]
      | inr there ↦
          or_right (is_active_of x (overwrite b r)) (holds x (map (overwrite b) rest))
            (others_hold x y b rest other rest_own (rw there at h))
    ]

-- A row that stays active is written.
active_holds :
    (x : ℕ) (b : ResourceAllocation) (rows : Ledger)
    → is_active b ≡ true
    → holds x rows ≡ true
    → holds x (map (overwrite b) rows) ≡ true
active_holds x b [] up h = h
active_holds x b (r ∷ rest) up h = elim (Bool-cases (is_active_of x r)) [
  | inl here ↦ elim (Bool-cases (r.id == b.id)) [
    | inl same ↦ rw same (
        or_left ((r.sandbox_id == x) && is_active b) (holds x (map (overwrite b) rest))
          (and_both (r.sandbox_id == x) (is_active b) (both_true here).0 up))
    | inr differs ↦ rw differs (or_left (is_active_of x r) (holds x (map (overwrite b) rest)) here)
  ]
  | inr there ↦
      or_right (is_active_of x (overwrite b r)) (holds x (map (overwrite b) rest))
        (active_holds x b rest up (rw there at h))
]

append_holds :
    (x : ℕ) (b : ResourceAllocation) (rows : Ledger)
    → holds x rows ≡ true
    → holds x (rows ++ b ∷ []) ≡ true
append_holds x b [] h = cc
append_holds x b (r ∷ rest) h = elim (Bool-cases (is_active_of x r)) [
  | inl here ↦ or_left (is_active_of x r) (holds x (rest ++ b ∷ [])) here
  | inr there ↦
      or_right (is_active_of x r) (holds x (rest ++ b ∷ [])) (append_holds x b rest (rw there at h))
]

-- A save that succeeds, of a row of another sandbox or of one that is active.
save-holds :
    (x : ℕ) (b : ResourceAllocation) (rows written : Ledger)
    → save b rows ≡ ok written
    → (holds x rows ≡ true → holds x (map (overwrite b) rows) ≡ true)
    → holds x rows ≡ true
    → holds x written ≡ true
unfolding save
save-holds x b rows written h mapped held = elim (Bool-cases (violates_active b rows)) [
  | inl bad ↦ let e = rw bad at h in cc
  | inr fine ↦ elim (Bool-cases (has_id b.id rows)) [
    | inl known ↦ subst (λ w. holds x w ≡ true) (ok_injective (rw (fine, known) at h)) (mapped held)
    | inr new ↦
        subst (λ w. holds x w ≡ true) (ok_injective (rw (fine, new) at h))
          (append_holds x b rows held)
  ]
]

-- What a round keeps: the primary key, and the quota of the sandbox.
abbrev pub IsSpared : ℕ → Ledger → Type 0
IsSpared x rows = Distinct rows × (holds x rows ≡ true)

committed-IsSpared :
    (x : ℕ) (rows : Ledger) (r : Result LedgerError Ledger)
    → IsSpared x rows
    → ((written : Ledger) → r ≡ ok written → IsSpared x written)
    → IsSpared x (committed rows r).0
committed-IsSpared x rows (ok written) h k = k written refl
committed-IsSpared x rows (err e) h k = h

on_active-IsSpared :
    (x y : ℕ) (rows : Ledger) (body : ResourceAllocation → Result LedgerError Ledger)
    → IsSpared x rows
    → ((a : ResourceAllocation) (written : Ledger)
        → find_active_by_sandbox y rows ≡ some a
        → body a ≡ ok written
        → IsSpared x written)
    → IsSpared x (on_active y rows body).0
on_active-IsSpared x y rows body h k = elim (Option-cases (find_active_by_sandbox y rows)) [
  | inl absent ↦ subst (λ o. IsSpared x (on_found o rows body).0) (sym absent) h
  | inr (a, found) ↦
      subst (λ o. IsSpared x (on_found o rows body).0) (sym found)
        (committed-IsSpared x rows (body a) h (λ written e. k a written found e))
]

confirm_active-IsSpared :
    (x y : ℕ) (rows : Ledger) → IsSpared x rows → IsSpared x (confirm_active y rows).0
unfolding confirm_active confirm
confirm_active-IsSpared x y rows (d, held) =
    on_active-IsSpared x y rows (λ active. save (confirm active) rows) (d, held)
      λ a written found e.
        let (known, up, keys) = find_active-keys y rows a d found in
        (
          save-Distinct (confirm a) rows e d,
          save-holds x (confirm a) rows written e (active_holds x (confirm a) rows up) held,
        )

release_as_orphan-IsSpared :
    (x y now : ℕ) (rows : Ledger)
    → (x == y) ≡ false
    → IsSpared x rows
    → IsSpared x (release_as_orphan y true now rows).0
unfolding release_as_orphan mark_orphaned
release_as_orphan-IsSpared x y now rows other (d, held) =
    on_active-IsSpared x y rows _ (d, held)
      λ a written found e.
        let (released, e1, e2) = >>=-eq-ok (release_allocation (mark_orphaned a) now) _ e in
        let (saved, e3, e4) = >>=-eq-ok (save released rows) _ e2 in
        let (done, e5, e6) = >>=-eq-ok (also_in_tx true) (λ also. ok saved) e4 in
        let (same, idle) = release-fields (mark_orphaned a) now e1 in
        let own : belongs_to y released.id rows ≡ true =
          subst (λ id. belongs_to y id rows ≡ true) (sym same) (found_belongs y rows a d found) in
        subst (IsSpared x) (ok_injective e6) (
          save-Distinct released rows e3 d,
          save-holds x released rows saved e3 (others_hold x y released rows other own) held,
        )

abbrev pub is_gone : Verdict → Bool
is_gone gone = true
is_gone v = false

-- The verdict on a row of the sandbox is never `gone`.
abbrev pub NeverGone : ℕ → Judge → List ResourceAllocation → Type 0
NeverGone x judge rows = All (λ a. (is_gone (judge a).0 && x == a.sandbox_id) ≡ false) rows

settle_verdict-IsSpared :
    (x : ℕ) (v : Verdict) (now : ℕ) (a : ResourceAllocation) (r : Round)
    → (is_gone v && x == a.sandbox_id) ≡ false
    → IsSpared x r.ledger
    → IsSpared x (settle_verdict v now a r).0.ledger
unfolding settle_verdict
settle_verdict-IsSpared x unknown now a r fine h = h
settle_verdict-IsSpared x alive now a r fine h = confirm_active-IsSpared x a.sandbox_id r.ledger h
settle_verdict-IsSpared x gone now a r fine h =
    release_as_orphan-IsSpared x a.sandbox_id now r.ledger fine h

check-IsSpared :
    (x : ℕ) (judge : Judge) (rows : List ResourceAllocation) (r : Round)
    → NeverGone x judge rows
    → IsSpared x r.ledger
    → IsSpared x (check judge rows r).0.ledger
unfolding check
check-IsSpared x judge [] r fine h = h
check-IsSpared x judge (a ∷ rest) r fine h =
    then_do_keeps (λ q. IsSpared x q.ledger) (settle_verdict (judge a).0 (judge a).1 a r)
      (check judge rest) (settle_verdict-IsSpared x (judge a).0 (judge a).1 a r fine.0 h)
      (λ q k. check-IsSpared x judge rest q fine.1 k)

-- A sandbox that holds a quota keeps it in a round, at start-up and by the timer, unless one of its rows was
-- found to be gone; the identifiers of the rows stay distinct. Whether another job throws does not matter.
pub reconcile-IsSpared :
    (x node_id now stale batch : ℕ) (judge : Judge) (r : Round)
    → NeverGone x judge (list_active node_id r.ledger)
    → NeverGone x judge (due_rows node_id now stale batch r)
    → IsSpared x r.ledger
    → IsSpared x (reconcile node_id judge r).0.ledger
      × IsSpared x (reconcile_incremental node_id now stale batch judge r).0.ledger
unfolding reconcile reconcile_incremental
reconcile-IsSpared x node_id now stale batch judge r all due h = (
  check-IsSpared x judge (list_active node_id r.ledger) r all h,
  check-IsSpared x judge (due_rows node_id now stale batch r) r due h,
)
