-- ===== src/Archive/Fields.antt =====
-- A number that is written into a header can be read back.
use agent_platform_api.Common.{
  ℕ, zero, suc, ◌+◌, ◌-◌, ◌*◌, ◌/◌, ◌%◌, ◌≡◌, ◌≤◌, ◌<◌, refl, ◌∙◌, ap, Text, true, ltb, leb, ◌&&◌,
  length, length-append, take, drop, Option, none, some, List, [], ◌∷◌, ◌++◌, Bool-cases, inl, inr,
  arith, if◌then◌else◌,
}
use mathlib.Core.List.{append_assoc}
use agent_platform_api.Archive.Sizes.{length-write_at, length-zeros}
use agent_platform_api.Archive.{
  Encoder, digits, octal, repeat_zero, pad_start, write_at, write_octal, write_link, build_header,
  HeaderFields, block, zeros, split_name,
}

-- How a reader takes a number: octal digits up to the first other byte.
abbrev pub parse_octal : ℕ → List ℕ → ℕ
parse_octal acc [] = acc
parse_octal acc (c ∷ s) =
    let rest = parse_octal (acc * 8 + (c - 48)) s in if leb 48 c && ltb c 56 then rest else acc

-- The field of a header from an offset up to an end.
abbrev pub read_octal : ℕ → ℕ → List ℕ → ℕ
read_octal off end header = parse_octal 0 (drop off (take end header))

parse-digit :
    (acc d : ℕ) (t : List ℕ) → d < 8 → parse_octal acc ((48 + d) ∷ t) ≡ parse_octal (acc * 8 + d) t
parse-digit acc d t h =
    let low : (leb 48 (48 + d) && ltb (48 + d) 56) ≡ true = ground (arith, h) in
    rw low (ap (λ k. parse_octal (acc * 8 + k) t) (omega arith))

parse-digits :
    (fuel n : ℕ) (t : List ℕ) → n < fuel → parse_octal 0 (digits 8 fuel n ++ t) ≡ parse_octal n t
unfolding digits
parse-digits zero n t h = absurd (omega (arith, h))
parse-digits (suc fuel) n t h = elim (Bool-cases (ltb n 8)) [
  | inl low ↦
      rw low (parse-digit 0 n t (ground (arith, low)) ∙ ap (λ k. parse_octal k t) (omega arith))
  | inr high ↦ rw high (
      ap (parse_octal 0) (append_assoc (digits 8 fuel (n / 8)) ((48 + n % 8) ∷ []) t)
      ∙ parse-digits fuel (n / 8) ((48 + n % 8) ∷ t) (ground (arith, h, high))
      ∙ parse-digit (n / 8) (n % 8) t (omega arith)
      ∙ ap (λ k. parse_octal k t) (omega arith))
]

parse-padded : (k : ℕ) (s : List ℕ) → parse_octal 0 (repeat_zero k s) ≡ parse_octal 0 s
unfolding repeat_zero
parse-padded zero s = refl
parse-padded (suc k) s = parse-padded k s

repeat_zero-append : (k : ℕ) (s t : List ℕ) → repeat_zero k s ++ t ≡ repeat_zero k (s ++ t)
unfolding repeat_zero
repeat_zero-append zero s t = refl
repeat_zero-append (suc k) s t = ap (λ xs. 48 ∷ xs) (repeat_zero-append k s t)

take-write_at :
    (n off : ℕ) (bytes buf : List ℕ) → n ≤ off → take n (write_at off bytes buf) ≡ take n buf
unfolding write_at
take-write_at zero off bytes buf h = refl
take-write_at (suc n) off bytes [] h = refl
take-write_at (suc n) zero bytes (b ∷ buf) h = absurd (omega (arith, h))
take-write_at (suc n) (suc off) bytes (b ∷ buf) h =
    ap (λ xs. b ∷ xs) (take-write_at n off bytes buf (omega (arith, h)))

take_written :
    (n : ℕ) (bytes buf : List ℕ)
    → n ≡ length bytes
    → n ≤ length buf
    → take n (write_at 0 bytes buf) ≡ bytes
unfolding write_at
take_written zero [] buf e h = refl
take_written zero (x ∷ bytes) buf e h = absurd (omega (arith, e))
take_written (suc n) bytes [] e h = absurd (omega (arith, h))
take_written (suc n) [] (b ∷ buf) e h = absurd (omega (arith, e))
take_written (suc n) (x ∷ bytes) (b ∷ buf) e h =
    ap (λ xs. x ∷ xs) (take_written n bytes buf (omega (arith, e)) (omega (arith, h)))

drop_written :
    (off n : ℕ) (bytes buf : List ℕ)
    → n ≡ off + length bytes
    → n ≤ length buf
    → drop off (take n (write_at off bytes buf)) ≡ bytes
unfolding write_at
drop_written zero n bytes buf e h = take_written n bytes buf (omega (arith, e)) h
drop_written (suc off) zero bytes buf e h = absurd (omega (arith, e))
drop_written (suc off) (suc n) bytes [] e h = absurd (omega (arith, h))
drop_written (suc off) (suc n) bytes (b ∷ buf) e h =
    drop_written off n bytes buf (omega (arith, e)) (omega (arith, h))

take-all : (n : ℕ) (xs : List ℕ) → length xs ≤ n → take n xs ≡ xs
take-all zero [] h = refl
take-all zero (x ∷ xs) h = absurd (omega (arith, h))
take-all (suc n) [] h = refl
take-all (suc n) (x ∷ xs) h = ap (λ ys. x ∷ ys) (take-all n xs (omega (arith, h)))

length-repeat_zero : (k : ℕ) (s : List ℕ) → length (repeat_zero k s) ≡ k + length s
unfolding repeat_zero
length-repeat_zero zero s = omega arith
length-repeat_zero (suc k) s = omega (arith, length-repeat_zero k s)

-- The bytes of a field of twelve.
abbrev field : ℕ → List ℕ
field value = pad_start 11 (octal value) ++ 0 ∷ []

length-field : (value : ℕ) → length (octal value) ≤ 11 → length (field value) ≡ 12
unfolding pad_start
length-field value h = omega (
  arith,
  length-append (repeat_zero (11 - length (octal value)) (octal value)) (0 ∷ []),
  length-repeat_zero (11 - length (octal value)) (octal value),
  h,
)

parse-field : (value : ℕ) → parse_octal 0 (field value) ≡ value
unfolding pad_start octal
parse-field value =
    let k = 11 - length (digits 8 (suc value) value) in
    ap (parse_octal 0) (repeat_zero-append k (digits 8 (suc value) value) (0 ∷ []))
    ∙ parse-padded k (digits 8 (suc value) value ++ 0 ∷ [])
    ∙ parse-digits (suc value) value (0 ∷ []) (omega arith)

read-write_octal :
    (value off end : ℕ) (buf : List ℕ)
    → length (octal value) ≤ 11
    → end ≡ off + 12
    → end ≤ length buf
    → read_octal off end (write_octal value off 12 buf) ≡ value
unfolding write_octal
read-write_octal value off end buf h e room =
    let size = length-field value h in
    let whole : take 12 (field value) ≡ field value =
      take-all 12 (field value) (omega (arith, size)) in
    ap (λ bytes. read_octal off end (write_at off bytes buf)) whole
    ∙ ap (parse_octal 0) (drop_written off end (field value) buf (omega (arith, e, size)) room)
    ∙ parse-field value

take-write_link :
    (n : ℕ) (encoder : Encoder) (target : Option Text) (buf : List ℕ)
    → n ≤ 157
    → take n (write_link encoder target buf) ≡ take n buf
unfolding write_link
take-write_link n encoder none buf h = refl
take-write_link n encoder (some t) buf h = take-write_at n 157 (encoder.fit 100 t) buf h

module _ (encoder : Encoder) (fields : HeaderFields) where
  -- The block when the fields before the size are written, and when the time is written too.
  abbrev owned : List ℕ
  owned = write_octal 0 116 8 (
      write_octal 0 108 8 (
        write_octal (fields.mode % 4096) 100 8
          (write_at 0 (encoder.fit 100 (split_name encoder fields.name).name) (zeros block))))

  abbrev sized : List ℕ
  sized = write_octal fields.size 124 12 owned

  abbrev timed : List ℕ
  timed = write_octal fields.mtime_sec 136 12 sized

  length-owned : length owned ≡ 512
  unfolding write_octal
  length-owned = simp (length-write_at, length-zeros)

  length-sized : length sized ≡ 512
  unfolding write_octal
  length-sized = simp (length-write_at, length-zeros)

  -- What is written after the time stands behind it.
  take-build_header :
      (flag n : ℕ) → n ≤ 148 → take n (build_header encoder fields flag) ≡ take n timed
  unfolding build_header
  take-build_header flag n h =
      take-write_at n 154 _ _ (omega (arith, h))
      ∙ take-write_at n 148 _ _ h
      ∙ take-write_at n 345 _ _ (omega (arith, h))
      ∙ take-write_at n 263 _ _ (omega (arith, h))
      ∙ take-write_at n 257 _ _ (omega (arith, h))
      ∙ take-write_link n encoder fields.linkname _ (omega (arith, h))
      ∙ take-write_at n 156 _ _ (omega (arith, h))
      ∙ take-write_at n 148 _ _ h

  take-timed : take 136 timed ≡ take 136 sized
  unfolding write_octal
  take-timed = take-write_at 136 136 _ sized (omega arith)

-- The size and the time that a header is built from are read back from it: for a size and a time of at
-- most eleven octal digits, whatever the name, the target and the flag are.
pub read-build_header :
    (encoder : Encoder) (fields : HeaderFields) (flag : ℕ)
    → length (octal fields.size) ≤ 11
    → length (octal fields.mtime_sec) ≤ 11
    → (read_octal 124 136 (build_header encoder fields flag) ≡ fields.size)
      × (read_octal 136 148 (build_header encoder fields flag) ≡ fields.mtime_sec)
read-build_header encoder fields flag h k = (
  ap (λ xs. parse_octal 0 (drop 124 xs))
        (take-build_header encoder fields flag 136 (omega arith) ∙ take-timed encoder fields)
      ∙ read-write_octal fields.size 124 136 (owned encoder fields) h refl
          (omega (arith, length-owned encoder fields)),
  ap (λ xs. parse_octal 0 (drop 136 xs)) (take-build_header encoder fields flag 148 (omega arith))
      ∙ read-write_octal fields.mtime_sec 136 148 (sized encoder fields) k refl
          (omega (arith, length-sized encoder fields)),
)
