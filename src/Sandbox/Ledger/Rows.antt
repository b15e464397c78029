-- ===== src/Sandbox/Ledger/Rows.antt =====
-- The rows of the table under an insertion and an update: the primary key, and what the active rows add
-- up to.
use agent_platform_api.Common.{
  ℕ, ◌+◌, ◌≤◌, ◌≡◌, refl, ◌∙◌, subst, inl, inr, Bool, true, false, not, ◌&&◌, ◌||◌, ◌==◌, ==_iff,
  all, map, sum_by, some, [], ◌∷◌, ◌++◌, ok, ok_injective, Bool-cases, arith, both_true,
  if◌then◌else◌,
}
use agent_platform_api.Sandbox.Ledger.{
  ResourceAllocation, Ledger, save, has_id, overwrite, violates_active, is_active, is_active_of,
  list_active, find_active_by_sandbox,
}

-- The primary key.
abbrev pub Distinct : Ledger → Type 0
Distinct [] = Unit
Distinct (a ∷ rest) = (has_id a.id rest ≡ false) × Distinct rest

overwrite_id : (a r : ResourceAllocation) → (overwrite a r).id ≡ r.id
overwrite_id a r = elim (Bool-cases (r.id == a.id)) [ inl same ↦ rw same | inr other ↦ rw other ]

has_id-map :
    (id : ℕ) (a : ResourceAllocation) (rows : Ledger)
    → has_id id (map (overwrite a) rows) ≡ has_id id rows
has_id-map id a [] = refl
has_id-map id a (r ∷ rest) = rw (overwrite_id a r) (rw (has_id-map id a rest))

Distinct-map :
    (a : ResourceAllocation) (rows : Ledger) → Distinct rows → Distinct (map (overwrite a) rows)
Distinct-map a [] d = d
Distinct-map a (r ∷ rest) d =
    (rw (overwrite_id a r) (has_id-map r.id a rest ∙ d.0), Distinct-map a rest d.1)

has_id-append :
    (id : ℕ) (rows : Ledger) (a : ResourceAllocation)
    → has_id id rows ≡ false
    → (a.id == id) ≡ false
    → has_id id (rows ++ a ∷ []) ≡ false
has_id-append id [] a h k = rw k
has_id-append id (r ∷ rest) a h k = elim (Bool-cases (r.id == id)) [
  | inl same ↦ let e = rw same at h in cc
  | inr other ↦ rw other (has_id-append id rest a (rw other at h) k)
]

Distinct-append :
    (rows : Ledger) (a : ResourceAllocation)
    → Distinct rows
    → has_id a.id rows ≡ false
    → Distinct (rows ++ a ∷ [])
Distinct-append [] a d h = (refl, tt)
Distinct-append (r ∷ rest) a d h = elim (Bool-cases (r.id == a.id)) [
  | inl same ↦ let e = rw same at h in cc
  | inr other ↦
      (has_id-append r.id rest a d.0 (ground arith), Distinct-append rest a d.1 (rw other at h))
]

pub save-Distinct :
    (a : ResourceAllocation) (rows : Ledger) {written : Ledger}
    → save a rows ≡ ok written
    → Distinct rows
    → Distinct written
unfolding save
save-Distinct a rows h d = elim (Bool-cases (violates_active a rows)) [
  | inl bad ↦ let e = rw bad at h in cc
  | inr fine ↦ elim (Bool-cases (has_id a.id rows)) [
    | inl known ↦ subst Distinct (ok_injective (rw known at (rw fine at h))) (Distinct-map a rows d)
    | inr fresh ↦
        subst Distinct (ok_injective (rw fresh at (rw fine at h))) (Distinct-append rows a d fresh)
  ]
]

module _ (f : ResourceAllocation → ℕ) (node_id : ℕ) where
  -- What the active rows of the node add up to.
  abbrev pub active_sum : Ledger → ℕ
  active_sum rows = sum_by f (list_active node_id rows)

  pub active_sum-append :
      (rows : Ledger) (a : ResourceAllocation)
      → active_sum (rows ++ a ∷ []) ≡ active_sum rows + active_sum (a ∷ [])
  unfolding list_active
  active_sum-append [] a = omega arith
  active_sum-append (r ∷ rest) a = elim (Bool-cases (r.node_id == node_id && is_active r)) [
    | inl y ↦ rw y (omega (arith, active_sum-append rest a))
    | inr n ↦ rw n (active_sum-append rest a)
  ]

  -- What one row adds.
  abbrev pub share : ResourceAllocation → ℕ
  share r = if r.node_id == node_id && is_active r then f r else 0

  pub active_sum-cons :
      (r : ResourceAllocation) (rest : Ledger) → active_sum (r ∷ rest) ≡ share r + active_sum rest
  unfolding list_active
  active_sum-cons r rest = elim (Bool-cases (r.node_id == node_id && is_active r)) [
    | inl y ↦ rw y
    | inr n ↦ rw n (omega arith)
  ]

  share-overwrite :
      (a r : ResourceAllocation)
      → f (overwrite a r) ≡ f r
      → (not (r.id == a.id && is_active a) || is_active r) ≡ true
      → share (overwrite a r) ≤ share r
  share-overwrite a r k h = elim (Bool-cases (r.id == a.id)) [
    | inr other ↦ rw other (omega arith)
    | inl same ↦ elim (Bool-cases (is_active a)) [
      | inl up ↦
          let alive = rw up at (rw same at h) in
          let keeps = rw same at k in
          elim (Bool-cases (r.node_id == node_id)) [
            | inl here ↦ rw same (rw here (rw up (rw alive (omega (arith, keeps)))))
            | inr away ↦ rw same (rw away (omega arith))
          ]
      | inr down ↦ elim (Bool-cases (r.node_id == node_id)) [
        | inl here ↦ rw same (rw here (rw down (omega arith)))
        | inr away ↦ rw same (rw away (omega arith))
      ]
    ]
  ]

  -- An update that makes no released row active again.
  pub active_sum-map :
      (a : ResourceAllocation) (rows : Ledger)
      → ((r : ResourceAllocation) → f (overwrite a r) ≡ f r)
      → all (λ r. not (r.id == a.id && is_active a) || is_active r) rows ≡ true
      → active_sum (map (overwrite a) rows) ≤ active_sum rows
  active_sum-map a [] k h = omega arith
  active_sum-map a (r ∷ rest) k h =
      let (here, there) = both_true h in
      omega (
        arith,
        active_sum-cons r rest,
        active_sum-cons (overwrite a r) (map (overwrite a) rest),
        share-overwrite a r (k r) here,
        active_sum-map a rest k there,
      )

keys_own :
    (same : Bool) {alive others : Bool}
    → alive ≡ true
    → others ≡ true
    → ((not same || alive) && others) ≡ true
keys_own true h k = rw h k
keys_own false h k = k

some_injective : {A : Type 0} {a b : A} → some a ≡ some b → a ≡ b
some_injective h = cc

-- The row that is found is active, and no other has its key.
keys_fresh :
    (id : ℕ) (rows : Ledger)
    → has_id id rows ≡ false
    → all (λ r. not (r.id == id) || is_active r) rows ≡ true
keys_fresh id [] h = refl
keys_fresh id (r ∷ rest) h = elim (Bool-cases (r.id == id)) [
  | inl same ↦ let e = rw same at h in cc
  | inr other ↦ rw other (keys_fresh id rest (rw other at h))
]

pub find_active-keys :
    (s : ℕ) (rows : Ledger) (a : ResourceAllocation)
    → Distinct rows
    → find_active_by_sandbox s rows ≡ some a
    → (has_id a.id rows ≡ true)
      × (is_active a ≡ true)
      × (all (λ r. not (r.id == a.id) || is_active r) rows ≡ true)
unfolding find_active_by_sandbox
find_active-keys s [] a d h = cc
find_active-keys s (r ∷ rest) a d h = elim (Bool-cases (is_active_of s r)) [
  | inl found ↦
      let alive = (both_true found).1 in
      let own : (r.id == r.id) ≡ true = (==_iff r.id r.id).1 refl in
      subst
        (λ x.
          (has_id x.id (r ∷ rest) ≡ true)
          × (is_active x ≡ true)
          × (all (λ y. not (y.id == x.id) || is_active y) (r ∷ rest) ≡ true))
        (some_injective (rw found at h))
        (rw own, alive, keys_own (r.id == r.id) alive (keys_fresh r.id rest d.0))
  | inr later ↦
      let (known, alive, keys) = find_active-keys s rest a d.1 (rw later at h) in
      elim (Bool-cases (r.id == a.id)) [
        | inl same ↦
            let clash = subst (λ i. has_id i rest ≡ false) ((==_iff r.id a.id).0 same) d.0 in cc
        | inr other ↦ (rw other known, alive, rw other keys)
      ]
]
