-- ===== src/Project/Volume/Lifetime.antt =====
-- How long a volume is kept, and that its record is read-only once it is deleted (I-RV-1, I-RV-2).
use agent_platform_api.Common.{
  ℕ, ◌+◌, ◌*◌, ◌≤◌, ◌≡◌, refl, sym, ◌∙◌, ap, ◌==◌, subst, true, false, leb, any, day_ms, List, [],
  ◌∷◌, ◌⊎◌, inl, inr, arith, Result, ok, err, ok_injective, Bool-cases, trim, is_blank,
}
use agent_platform_api.Project.Volume.{
  RetainedVolume, RegisterInput, VolumeError, register, registered, allowed_days, is_deleted,
  is_expired_at, mark_deleted, detach_sandbox, assert_mutable, Call, deletes, detaches, step,
  run_calls,
}

-- Three, seven or thirty days from the time it was retained, in milliseconds.
abbrev pub IsKept : RetainedVolume → Type 0
IsKept v =
    (v.retain_until ≡ v.retained_at + 3 * day_ms)
    ⊎ (v.retain_until ≡ v.retained_at + 7 * day_ms)
    ⊎ (v.retain_until ≡ v.retained_at + 30 * day_ms)

-- The term of a volume does not change, and once it is deleted nothing does.
abbrev pub Lasts : RetainedVolume → RetainedVolume → Type 0
Lasts v w =
    (w.retain_until ≡ v.retain_until)
    × (w.retained_at ≡ v.retained_at)
    × ((is_deleted v ≡ false) ⊎ (w ≡ v))

step-Lasts : (v : RetainedVolume) (c : Call) → Lasts v (step v c).0
unfolding step mark_deleted detach_sandbox assert_mutable
step-Lasts v (deletes now) = ground arith
step-Lasts v detaches = ground arith

days_cases : (d : ℕ) → any (λ e. e == d) allowed_days ≡ true → (d ≡ 3) ⊎ (d ≡ 7) ⊎ (d ≡ 30)
days_cases d h = ground arith

registered-IsKept :
    (input : RegisterInput) (retain_until : ℕ)
    → (input.retention_days ≡ 3) ⊎ (input.retention_days ≡ 7) ⊎ (input.retention_days ≡ 30)
    → retain_until ≡ input.now + input.retention_days * day_ms
    → IsKept (registered input retain_until)
unfolding registered
registered-IsKept input retain_until d e = ground (arith, d, e)

abbrev OkKept : Result VolumeError RetainedVolume → Type 0
OkKept (ok v) = IsKept v
OkKept (err e) = Unit

IsKept-of_ok :
    (r : Result VolumeError RetainedVolume) {v : RetainedVolume} → r ≡ ok v → OkKept r → IsKept v
IsKept-of_ok (ok w) e h = subst IsKept (ok_injective e) h
IsKept-of_ok (err x) e h = cc

register-OkKept : (input : RegisterInput) → OkKept (register input)
unfolding register
register-OkKept input = elim (Bool-cases (any (λ d. d == input.retention_days) allowed_days)) [
  | inr other ↦ rw other tt
  | inl allowed ↦ rw allowed (elim (Bool-cases (is_blank (trim input.workspace_path))) [
    | inl blank ↦ rw blank tt
    | inr path ↦
        rw path (elim (Bool-cases (leb (input.now + input.retention_days * day_ms) input.now)) [
          | inl late ↦ rw late tt
          | inr later ↦
              rw later (registered-IsKept input _ (days_cases input.retention_days allowed) refl)
        ])
  ])
]

run_calls-Lasts : (v : RetainedVolume) (cs : List Call) → Lasts v (run_calls v cs)
run_calls-Lasts v [] = (refl, refl, inr refl)
run_calls-Lasts v (c ∷ cs) =
    let first = step-Lasts v c in
    let later = run_calls-Lasts (step v c).0 cs in
    (
      later.0 ∙ first.0,
      later.1 ∙ first.1,
      lasting v (step v c).0 (run_calls (step v c).0 cs) first.2 later.2,
    )
  where
    lasting :
        (u v w : RetainedVolume)
        → (is_deleted u ≡ false) ⊎ (v ≡ u)
        → (is_deleted v ≡ false) ⊎ (w ≡ v)
        → (is_deleted u ≡ false) ⊎ (w ≡ u)
    lasting u v w (inl free) k = inl free
    lasting u v w (inr same) (inr again) = inr (again ∙ same)
    lasting u v w (inr same) (inl free) = inl (sym (ap is_deleted same) ∙ free)

expired_after : (v : RetainedVolume) (now : ℕ) → is_expired_at v now ≡ true → v.retain_until ≤ now
unfolding is_expired_at
expired_after v now h = ground arith

-- A volume that register returned has a term of three, seven or thirty days, and no calls change that:
-- whatever was done with it, it counts as expired at no time before its term.
pub expired-IsKept :
    (input : RegisterInput) {v : RetainedVolume} (cs : List Call) (now : ℕ)
    → register input ≡ ok v
    → is_expired_at (run_calls v cs) now ≡ true
    → IsKept v × (v.retain_until ≤ now)
expired-IsKept input {v} cs now e h =
    let lasts = run_calls-Lasts v cs in
    (
      IsKept-of_ok (register input) e (register-OkKept input),
      omega (arith, lasts.0, expired_after (run_calls v cs) now h),
    )

-- Once a volume is deleted its record is read-only: no calls change it, and it is never expired.
pub run_calls-deleted :
    (v : RetainedVolume) (cs : List Call) (now : ℕ)
    → is_deleted v ≡ true
    → (run_calls v cs ≡ v) × (is_expired_at v now ≡ false)
unfolding is_expired_at
run_calls-deleted v cs now h = elim (run_calls-Lasts v cs).2 [
  | inl free ↦ cc
  | inr same ↦ (same, rw h refl)
]
