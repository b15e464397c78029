-- ===== src/Archive/Pax.antt =====
-- A record of an extended header tells its own length, which the loop finds.
use agent_platform_api.Common.{
  ℕ, zero, suc, ◌+◌, ◌*◌, ◌/◌, ◌%◌, ◌≡◌, ◌≤◌, ◌<◌, refl, ap, Text, false, ltb, ◌==◌, ==_iff, length,
  length-append, Option, some, [], ◌∷◌, ◌++◌, All, All-append, Bool-cases, inl, inr, arith,
}
use agent_platform_api.Archive.{
  Encoder, IsUtf8, byte_length, digits, decimal, pax_body, settle_length, pax_record,
}

-- A larger number has no fewer digits.
digits-le : (fuel a b : ℕ) → a ≤ b → length (digits 10 fuel a) ≤ length (digits 10 fuel b)
unfolding digits
digits-le zero a b h = omega arith
digits-le (suc fuel) a b h =
    let rest = digits-le fuel (a / 10) (b / 10) (omega (arith, h)) in
    let la = length-append (digits 10 fuel (a / 10)) ((48 + a % 10) ∷ []) in
    let lb = length-append (digits 10 fuel (b / 10)) ((48 + b % 10) ∷ []) in
    ground (arith, rest, la, lb, h)

-- More fuel than the number gives the same digits.
digits-fuel : (f g n : ℕ) → n < f → n < g → digits 10 f n ≡ digits 10 g n
unfolding digits
digits-fuel zero g n h k = absurd (omega (arith, h))
digits-fuel (suc f) zero n h k = absurd (omega (arith, k))
digits-fuel (suc f) (suc g) n h k = elim (Bool-cases (ltb n 10)) [
  | inl low ↦ rw low refl
  | inr high ↦ rw high (
      ap (λ xs. xs ++ (48 + n % 10) ∷ [])
        (digits-fuel f g (n / 10) (ground (arith, h, high)) (ground (arith, k, high))))
]

-- A number has at most half as many digits as itself, and one.
digits-half : (fuel n : ℕ) → length (digits 10 fuel n) ≤ n / 2 + 1
unfolding digits
digits-half zero n = omega arith
digits-half (suc fuel) n =
    let rest = digits-half fuel (n / 10) in
    let l = length-append (digits 10 fuel (n / 10)) ((48 + n % 10) ∷ []) in ground (arith, rest, l)

abbrev IsAscii : Text → Type 0
IsAscii s = All (λ c. c < 128) s

digits-IsAscii : (fuel n : ℕ) → IsAscii (digits 10 fuel n)
unfolding digits
digits-IsAscii zero n = tt
digits-IsAscii (suc fuel) n = elim (Bool-cases (ltb n 10)) [
  | inl low ↦ rw low (ground (arith, low), tt)
  | inr high ↦ rw high (
      All-append (λ c. c < 128) (digits 10 fuel (n / 10)) ((48 + n % 10) ∷ [])
        (digits-IsAscii fuel (n / 10)) (omega arith, tt))
]

above : (n a : ℕ) → n ≤ a → (a == n) ≡ false → n + 1 ≤ a
above n a h other = ground (arith, h, other)

digits-nonempty : (fuel n : ℕ) → 1 ≤ length (digits 10 (suc fuel) n)
unfolding digits
digits-nonempty fuel n =
    let l = length-append (digits 10 fuel (n / 10)) ((48 + n % 10) ∷ []) in ground (arith, l)

decimal-le : (a b : ℕ) → a ≤ b → length (decimal a) ≤ length (decimal b)
unfolding decimal
decimal-le a b h =
    let same = ap length (digits-fuel (suc a) (suc b) a (omega arith) (omega (arith, h))) in
    omega (arith, same, digits-le (suc b) a b h)

decimal-half : (n : ℕ) → length (decimal n) ≤ n / 2 + 1
unfolding decimal
decimal-half n = digits-half (suc n) n

decimal-nonempty : (n : ℕ) → 1 ≤ length (decimal n)
unfolding decimal
decimal-nonempty n = digits-nonempty n n

decimal-IsAscii : (n : ℕ) → IsAscii (decimal n)
unfolding decimal
decimal-IsAscii n = digits-IsAscii (suc n) n

module _ (encoder : Encoder) (utf8 : IsUtf8 encoder) where
  byte_length-append :
      (s t : Text) → IsAscii s → byte_length encoder (s ++ t) ≡ length s + byte_length encoder t
  byte_length-append [] t h = omega arith
  byte_length-append (c ∷ s) t h =
      rw (utf8.of_ascii c (s ++ t) h.0) (omega (arith, byte_length-append s t h.1))

  -- The record that tells the length `n`, and has it.
  abbrev pub Tells : Text → Option Text → Type 0
  Tells body found =
      (n : ℕ) × (found ≡ some (decimal n ++ body)) × (byte_length encoder (decimal n ++ body) ≡ n)

  settle_length-Tells :
      (body : Text) (fuel len : ℕ)
      → len ≤ length (decimal len) + byte_length encoder body
      → len ≤ 2 * byte_length encoder body + 2
      → 2 * byte_length encoder body + 2 < len + fuel
      → Tells body (settle_length encoder body fuel len)
  unfolding settle_length
  settle_length-Tells body zero len low high enough = absurd (omega (arith, high, enough))
  settle_length-Tells body (suc fuel) len low high enough =
      let actual = byte_length encoder (decimal len ++ body) in
      let size = byte_length-append (decimal len) body (decimal-IsAscii len) in
      elim (Bool-cases (actual == len)) [
        | inl found ↦ rw found (len, refl, (==_iff actual len).0 found)
        | inr other ↦
            let grows : len + 1 ≤ actual = above len actual (omega (arith, size, low)) other in
            rw other (
              settle_length-Tells body fuel actual
                (omega (arith, size, decimal-le len actual (omega (arith, grows))))
                (omega (arith, size, decimal-half len, high)) (omega (arith, grows, enough)))
      ]

-- The loop of `paxRecord` ends for every key and value, and the record that it returns begins with a
-- decimal number that is the length of the whole record in bytes.
pub pax_record-Tells :
    (encoder : Encoder) (utf8 : IsUtf8 encoder) (key value : Text)
    → Tells encoder utf8 (pax_body key value) (pax_record encoder key value)
unfolding pax_record
pax_record-Tells encoder utf8 key value =
    let k = byte_length encoder (pax_body key value) in
    settle_length-Tells encoder utf8 (pax_body key value) (k + 2) (k + 1)
      (omega (arith, decimal-nonempty (k + 1))) (omega arith) (omega arith)
