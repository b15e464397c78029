-- ===== src/Sandbox/Repository.antt =====
-- packages/modules/sandbox/src/infrastructure/persistence/sqlite/sandbox.repository.impl.ts: `saveSync`.
-- The row is its version, if it exists; the columns are those of the aggregate. The insert takes effect
-- whenever the version it asks for is the row's, which the two checks before it have found.
use agent_platform_api.Common.{
  ℕ, ◌+◌, Bool, true, false, any, Option, none, some, is_none, length, ◌==◌, Result, ok, err, ◌≡◌,
  refl, arith, tests, ==_iff, ok_injective, sym, ap, subst,
}
use agent_platform_api.Sandbox.Aggregate.{Sandbox, mark_persisted}

pub data SaveError : Type 0 where
  no_history write_conflict : SaveError

-- `sandbox.pendingTransitions.some((t) => t.from === null)`
abbrev pub is_creation : Sandbox → Bool
is_creation s = any (λ t. is_none t.from) s.pending_transitions

-- `existing ? sandbox.version + 1 : sandbox.version`
abbrev pub next_version : Option ℕ → Sandbox → ℕ
next_version none s = s.version
next_version (some v) s = s.version + 1

-- Whether the row that was found admits the aggregate.
abbrev pub admits : Option ℕ → Sandbox → Bool
admits none s = is_creation s
admits (some v) s = v == s.version

-- The history is empty; the row admits the aggregate; the aggregate as it is once written.
settle_save : Bool → Bool → Sandbox → Result SaveError Sandbox
settle_save true admitted written = err no_history
settle_save false false written = err write_conflict
settle_save false true written = ok written

unfoldable pub save_sync : Option ℕ → Sandbox → Result SaveError Sandbox
unfolding settle_save
save_sync existing s =
    settle_save (length s.transitions == 0) (admits existing s)
      (mark_persisted s (next_version existing s))

-- The version of the row after a save that succeeded.
abbrev pub row_of : Sandbox → Option ℕ
row_of saved = some saved.version

settle_save_inverse :
    (blank admitted : Bool) (written saved : Sandbox)
    → settle_save blank admitted written ≡ ok saved
    → (blank ≡ false) × (admitted ≡ true) × (written ≡ saved)
unfolding settle_save
settle_save_inverse true admitted written saved h = cc
settle_save_inverse false false written saved h = cc
settle_save_inverse false true written saved h = (refl, refl, ok_injective h)

-- What a save that succeeds has checked and written.
pub save_sync_inverse :
    (existing : Option ℕ) (s saved : Sandbox)
    → save_sync existing s ≡ ok saved
    → ((length s.transitions == 0) ≡ false)
      × (admits existing s ≡ true)
      × (mark_persisted s (next_version existing s) ≡ saved)
unfolding save_sync
save_sync_inverse existing s saved h = settle_save_inverse _ _ _ saved h

save_sync_refuses :
    (existing : Option ℕ) (s : Sandbox)
    → (length s.transitions == 0) ≡ false
    → admits existing s ≡ false
    → save_sync existing s ≡ err write_conflict
unfolding save_sync settle_save
save_sync_refuses existing s kept stale = rw (kept, stale) refl

-- Of two aggregates read from the same row, the one that is saved second is refused.
pub second_save_conflicts :
    (v : ℕ) (a b saved : Sandbox)
    → b.version ≡ a.version
    → (length b.transitions == 0) ≡ false
    → save_sync (some v) a ≡ ok saved
    → (saved.version ≡ v + 1) × (save_sync (row_of saved) b ≡ err write_conflict)
unfolding mark_persisted
second_save_conflicts v a b saved same kept h =
    let (_, fresh, written) = save_sync_inverse (some v) a saved h in
    let version : saved.version ≡ a.version + 1 = sym (ap (λ s. s.version) written) in
    (
      omega (tests, version, (==_iff v a.version).0 fresh),
      save_sync_refuses (row_of saved) b kept (ground (arith, version, same)),
    )

-- Once its row is removed, an aggregate that was saved before is refused: it inserts no new row.
pub removed_row_conflicts :
    (existing : Option ℕ) (a saved : Sandbox)
    → save_sync existing a ≡ ok saved
    → save_sync none saved ≡ err write_conflict
unfolding mark_persisted
removed_row_conflicts existing a saved h =
    let (kept, _, written) = save_sync_inverse existing a saved h in
    subst (λ t. save_sync none t ≡ err write_conflict) written
      (save_sync_refuses none (mark_persisted a (next_version existing a)) kept refl)
