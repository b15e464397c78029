-- ===== src/Archive/Sizes.antt =====
-- The archive is exactly as long as its plan says.
use agent_platform_api.Common.{
  ℕ, zero, suc, ◌+◌, ◌-◌, ◌*◌, ◌≡◌, ◌≤◌, refl, Text, Bool, true, false, ltb, length, length-append,
  take, sum_by, Option, none, some, List, [], ◌∷◌, ◌++◌, All, Bool-cases, ◌⊎◌, inl, inr, arith,
}
use agent_platform_api.Archive.{
  Encoder, TarEntry, TarEntryType, file, dir, symlink, block, round_up_to_block, zeros, write_at,
  write_octal, write_link, build_header, HeaderFields, padding, stream_file_exactly, extended,
  content, entry_chunks, generate_tar, entry_bytes, total_bytes, pax_bytes, pax_data_for,
  typeflag_of,
}

pub length-zeros : (n : ℕ) → length (zeros n) ≡ n
length-zeros zero = refl
length-zeros (suc n) = omega (arith, length-zeros n)

pub length-write_at : (off : ℕ) (bytes buf : List ℕ) → length (write_at off bytes buf) ≡ length buf
unfolding write_at
length-write_at off bytes [] = refl
length-write_at zero [] (b ∷ buf) = refl
length-write_at zero (x ∷ bytes) (b ∷ buf) = omega (arith, length-write_at zero bytes buf)
length-write_at (suc off) bytes (b ∷ buf) = omega (arith, length-write_at off bytes buf)

length-write_link :
    (encoder : Encoder) (target : Option Text) (buf : List ℕ)
    → length (write_link encoder target buf) ≡ length buf
unfolding write_link
length-write_link encoder none buf = refl
length-write_link encoder (some t) buf = length-write_at 157 (encoder.fit 100 t) buf

length-take : (n : ℕ) (xs : List ℕ) → length (take n xs) ≤ n
length-take zero xs = omega arith
length-take (suc n) [] = omega arith
length-take (suc n) (x ∷ xs) = omega (arith, length-take n xs)

round_up_le : (n : ℕ) → n ≤ round_up_to_block n
unfolding round_up_to_block
round_up_le n = omega arith

length-build_header :
    (encoder : Encoder) (fields : HeaderFields) (flag : ℕ)
    → length (build_header encoder fields flag) ≡ block
unfolding build_header write_octal
length-build_header encoder fields flag = simp (length-write_at, length-write_link, length-zeros)

-- What is padded fills whole blocks.
length-padded :
    (bytes : List ℕ) (size : ℕ)
    → length bytes ≡ size
    → length (bytes ++ padding size) ≡ round_up_to_block size
length-padded bytes size e = omega (
  arith,
  length-append bytes (padding size),
  e,
  round_up_le size,
  length-zeros (round_up_to_block size - size),
)

length-stream :
    (read : Text → List ℕ) (source : Text) (size : ℕ)
    → length (stream_file_exactly read source size) ≡ size
unfolding stream_file_exactly
length-stream read source size =
    let sent = take size (read source) in
    omega (
      arith,
      length-append sent (zeros (size - length sent)),
      length-take size (read source),
      length-zeros (size - length sent),
    )

-- A content is to be written only for a file that has a source.
abbrev pub is_readable : TarEntryType → Option Text → Bool
is_readable file (some source) = true
is_readable _ _ = false

abbrev pub IsPlannable : TarEntry → Type 0
IsPlannable entry = (is_readable entry.kind entry.source ≡ true) ⊎ (entry.size ≡ 0)

round_up_zero : (size : ℕ) → size ≡ 0 → 0 ≡ round_up_to_block size
unfolding round_up_to_block
round_up_zero size e = omega (arith, e)

not_full : (size : ℕ) → ltb 0 size ≡ false → size ≡ 0
not_full size h = ground (arith, h)

no_content : (size : ℕ) → (false ≡ true) ⊎ (size ≡ 0) → 0 ≡ round_up_to_block size
no_content size (inl h) = cc
no_content size (inr e) = round_up_zero size e

length-content :
    (read : Text → List ℕ) (kind : TarEntryType) (source : Option Text) (size : ℕ)
    → (is_readable kind source ≡ true) ⊎ (size ≡ 0)
    → length (content read kind source size) ≡ round_up_to_block size
unfolding content
length-content read file (some s) size h = elim (Bool-cases (ltb 0 size)) [
  | inl full ↦
      rw full (length-padded (stream_file_exactly read s size) size (length-stream read s size))
  | inr nothing ↦ rw nothing (round_up_zero size (not_full size nothing))
]
length-content read file none size h = no_content size h
length-content read dir source size h = no_content size h
length-content read symlink source size h = no_content size h

length-three : (xs ys zs : List ℕ) → length (xs ++ ys ++ zs) ≡ length xs + length ys + length zs
length-three xs ys zs = omega (arith, length-append (xs ++ ys) zs, length-append xs ys)

length-block :
    (header bytes : List ℕ)
    → length header ≡ block
    → length (header ++ bytes ++ padding (length bytes)) ≡ block + round_up_to_block (length bytes)
length-block header bytes h = omega (
  arith,
  h,
  length-three header bytes (padding (length bytes)),
  round_up_le (length bytes),
  length-zeros (round_up_to_block (length bytes) - length bytes),
)

length-extended :
    (encoder : Encoder) (entry : TarEntry) (pax : Option (List ℕ))
    → length (extended encoder entry pax) ≡ pax_bytes pax
unfolding extended
length-extended encoder entry none = refl
length-extended encoder entry (some bytes) =
    length-block _ bytes (length-build_header encoder _ 120)

length-parts :
    (xs ys zs : List ℕ) (a b c : ℕ)
    → length xs ≡ a
    → length ys ≡ b
    → length zs ≡ c
    → length (xs ++ ys ++ zs) ≡ a + b + c
length-parts xs ys zs a b c h k l = omega (arith, length-three xs ys zs, h, k, l)

length-entry_chunks :
    (encoder : Encoder) (read : Text → List ℕ) (entry : TarEntry)
    → IsPlannable entry
    → length (entry_chunks encoder read entry) ≡ entry_bytes encoder entry
unfolding entry_chunks entry_bytes
length-entry_chunks encoder read entry h =
    length-parts (extended encoder entry (pax_data_for encoder entry)) _
      (content read entry.kind entry.source entry.size) (pax_bytes (pax_data_for encoder entry))
      block (round_up_to_block entry.size)
      (length-extended encoder entry (pax_data_for encoder entry))
      (length-build_header encoder _ (typeflag_of entry.kind))
      (length-content read entry.kind entry.source entry.size h)

length-generate_tar_from :
    (encoder : Encoder) (read : Text → List ℕ) (entries : List TarEntry)
    → All IsPlannable entries
    → length (generate_tar encoder read entries) ≡ sum_by (entry_bytes encoder) entries + 2 * block
unfolding generate_tar
length-generate_tar_from encoder read [] h = refl
length-generate_tar_from encoder read (entry ∷ entries) h = omega (
  arith,
  length-append (entry_chunks encoder read entry) (generate_tar encoder read entries),
  length-entry_chunks encoder read entry h.0,
  length-generate_tar_from encoder read entries h.1,
)

-- The bytes that are written are as many as the plan says, whatever the files hold by then: for entries
-- of which only a file with a source has a size above 0.
pub generate_tar-total_bytes :
    (encoder : Encoder) (read : Text → List ℕ) (entries : List TarEntry)
    → All IsPlannable entries
    → length (generate_tar encoder read entries) ≡ total_bytes encoder entries
unfolding total_bytes
generate_tar-total_bytes encoder read entries h = length-generate_tar_from encoder read entries h
