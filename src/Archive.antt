-- ===== src/Archive.antt =====
-- packages/shared-kernel/src/fs/tar-archive.ts: the plan of an archive and the bytes that are written.
--
-- What `Buffer` does with a string is `Encoder`, and what reading a file gives is an argument.
pub mod Pax
pub mod Fields
pub mod Sizes
mod Examples
use agent_platform_api.Common.{
  ℕ, zero, suc, ◌+◌, ◌-◌, ◌*◌, ◌/◌, ◌%◌, ◌≡◌, ◌<◌, Text, codes, Bool, true, false, not, ◌&&◌, ltb,
  leb, ◌==◌, text_eq, is_blank, length, take, sum_by, if◌then◌else◌, Option, none, some, get_or,
  List, [], ◌∷◌, ◌++◌,
}

-- The bytes of a string in UTF-8; and those of its longest beginning that has at most so many bytes.
pub record Encoder : Type 0 where
  pub utf8 : Text → List ℕ
  pub fit : ℕ → Text → List ℕ

-- An ASCII unit is one byte.
pub record IsUtf8 (encoder : Encoder) : Type 0 where
  pub of_nil : encoder.utf8 [] ≡ []
  pub of_ascii : (c : ℕ) (s : Text) → c < 128 → encoder.utf8 (c ∷ s) ≡ c ∷ encoder.utf8 s

abbrev pub byte_length : Encoder → Text → ℕ
byte_length encoder s = length (encoder.utf8 s)

abbrev pub block : ℕ
block = 512

pub data TarEntryType : Type 0 where
  file dir symlink : TarEntryType

pub record TarEntry : Type 0 where
  pub name : Text
  pub kind : TarEntryType
  pub source : Option Text
  pub size : ℕ
  pub mode : ℕ
  pub mtime_sec : ℕ
  pub linkname : Option Text

unfoldable pub round_up_to_block : ℕ → ℕ
round_up_to_block n = (n + 511) / block * block

abbrev pub zeros : ℕ → List ℕ
zeros zero = []
zeros (suc n) = 0 ∷ zeros n

-- `n.toString(base)`, on fuel: one more than the number is enough.
pub digits : ℕ → ℕ → ℕ → Text
digits base zero n = []
digits base (suc fuel) n =
    let rest = digits base fuel (n / base) in
    if ltb n base then (48 + n) ∷ [] else rest ++ (48 + n % base) ∷ []

unfoldable pub decimal : ℕ → Text
unfolding digits
decimal n = digits 10 (suc n) n

unfoldable pub octal : ℕ → Text
unfolding digits
octal n = digits 8 (suc n) n

repeat_zero : ℕ → Text → Text
repeat_zero zero s = s
repeat_zero (suc n) s = 48 ∷ repeat_zero n s

-- `s.padStart(n, '0')`
pad_start : ℕ → Text → Text
unfolding repeat_zero
pad_start n s = repeat_zero (n - length s) s

-- `s.slice(0, -1)`
abbrev drop_last : Text → Text
drop_last [] = []
drop_last (c ∷ []) = []
drop_last (c ∷ d ∷ s) = c ∷ drop_last (d ∷ s)

-- The loop of `truncateUtf8`; the length of the string is enough.
shorten : Encoder → ℕ → ℕ → Text → Text
shorten encoder max_bytes zero s = s
shorten encoder max_bytes (suc fuel) s =
    let rest = shorten encoder max_bytes fuel (drop_last s) in
    if ltb max_bytes (byte_length encoder s) then rest else s

truncate_utf8 : Encoder → Text → ℕ → Text
unfolding shorten
truncate_utf8 encoder s max_bytes = shorten encoder max_bytes (length s) s

abbrev slash : ℕ
slash = 47

abbrev cons_part : ℕ → List Text → List Text
cons_part c [] = (c ∷ []) ∷ []
cons_part c (p ∷ ps) = (c ∷ p) ∷ ps

-- `full.split('/')` and `parts.join('/')`
split : Text → List Text
split [] = [] ∷ []
split (c ∷ s) = let parts = split s in if c == slash then [] ∷ parts else cons_part c parts

join : List Text → Text
join [] = []
join (p ∷ []) = p
join (p ∷ q ∷ ps) = p ++ slash ∷ join (q ∷ ps)

pub record SplitName : Type 0 where
  pub name : Text
  pub prefix : Text

-- The loop of `splitName`, from a prefix and the parts after it.
find_split : Encoder → Text → List Text → Option SplitName
unfolding join
find_split encoder prefix [] = none
find_split encoder prefix (p ∷ ps) =
    let name = join (p ∷ ps) in
    let later = find_split encoder (prefix ++ slash ∷ p) ps in
    if leb (byte_length encoder prefix) 155 && leb (byte_length encoder name) 100
    then some (record { name = name; prefix = prefix })
    else later

first_split : Encoder → List Text → Option SplitName
unfolding find_split
first_split encoder [] = none
first_split encoder (p ∷ ps) = find_split encoder p ps

unfoldable pub split_name : Encoder → Text → SplitName
unfolding truncate_utf8 first_split split
split_name encoder full =
    if leb (byte_length encoder full) 100
    then record { name = full; prefix = [] }
    else get_or (first_split encoder (split full))
        (record { name = truncate_utf8 encoder full 100; prefix = [] })

-- ` ${key}=${value}\n`
unfoldable pub pax_body : Text → Text → Text
pax_body key value = 32 ∷ key ++ 61 ∷ value ++ 10 ∷ []

-- The loop of `paxRecord`, on fuel.
unfoldable pub settle_length : Encoder → Text → ℕ → ℕ → Option Text
settle_length encoder body zero len = none
settle_length encoder body (suc fuel) len =
    let candidate = decimal len ++ body in
    let actual = byte_length encoder candidate in
    let later = settle_length encoder body fuel actual in
    if actual == len then some candidate else later

-- The fuel is more than the length can grow.
unfoldable pub pax_record : Encoder → Text → Text → Option Text
pax_record encoder key value =
    let body = pax_body key value in
    let bytes = byte_length encoder body in settle_length encoder body (bytes + 2) (bytes + 1)

pax_text : Encoder → Text → Option Text → Text
pax_text encoder key none = []
pax_text encoder key (some value) = get_or (pax_record encoder key value) []

-- `needsPax`: the name where the split does not give it back, and the target where it is too long.
path_record : Encoder → TarEntry → Option Text
path_record encoder entry =
    let s = split_name encoder entry.name in
    let round_trip = if is_blank s.prefix then s.name else s.prefix ++ slash ∷ s.name in
    if not (text_eq round_trip entry.name) then some entry.name else none

long_target : Encoder → Option Text → Option Text
long_target encoder none = none
long_target encoder (some target) =
    if ltb 100 (byte_length encoder target) then some target else none

pax_parts : Encoder → Option Text → Option Text → Option (List ℕ)
unfolding pax_text
pax_parts encoder none none = none
pax_parts encoder path linkpath = some (
    encoder.utf8
      (pax_text encoder (codes "path") path ++ pax_text encoder (codes "linkpath") linkpath))

-- `paxDataFor`
unfoldable pub pax_data_for : Encoder → TarEntry → Option (List ℕ)
unfolding path_record long_target pax_parts
pax_data_for encoder entry =
    pax_parts encoder (path_record encoder entry) (long_target encoder entry.linkname)

abbrev pax_bytes : Option (List ℕ) → ℕ
pax_bytes none = 0
pax_bytes (some data_block) = block + round_up_to_block (length data_block)

unfoldable pub entry_bytes : Encoder → TarEntry → ℕ
unfolding round_up_to_block
entry_bytes encoder entry =
    pax_bytes (pax_data_for encoder entry) + block + round_up_to_block entry.size

-- `planTarArchive(entries).totalBytes`
unfoldable pub total_bytes : Encoder → List TarEntry → ℕ
total_bytes encoder entries = sum_by (entry_bytes encoder) entries + 2 * block

-- `buf.write` of bytes at an offset; what would stand beyond the end is lost.
unfoldable pub write_at : ℕ → List ℕ → List ℕ → List ℕ
write_at off bytes [] = []
write_at zero [] (b ∷ buf) = b ∷ buf
write_at zero (x ∷ bytes) (b ∷ buf) = x ∷ write_at zero bytes buf
write_at (suc off) bytes (b ∷ buf) = b ∷ write_at off bytes buf

write_octal : ℕ → ℕ → ℕ → List ℕ → List ℕ
unfolding octal pad_start
write_octal value off len buf =
    write_at off (take len (pad_start (len - 1) (octal value) ++ 0 ∷ [])) buf

-- The fields of a header that stand in it as numbers, names and flags.
pub record HeaderFields : Type 0 where
  pub name : Text
  pub size : ℕ
  pub mode : ℕ
  pub mtime_sec : ℕ
  pub linkname : Option Text

write_link : Encoder → Option Text → List ℕ → List ℕ
write_link encoder none buf = buf
write_link encoder (some target) buf = write_at 157 (encoder.fit 100 target) buf

abbrev sum_bytes : List ℕ → ℕ
sum_bytes = sum_by (λ b. b)

-- `buildHeader`, in the order of its writes.
unfoldable pub build_header : Encoder → HeaderFields → ℕ → List ℕ
unfolding write_octal write_link octal pad_start
build_header encoder entry typeflag =
    let s = split_name encoder entry.name in
    let named = write_at 0 (encoder.fit 100 s.name) (zeros block) in
    let moded = write_octal (entry.mode % 4096) 100 8 named in
    let owned = write_octal 0 116 8 (write_octal 0 108 8 moded) in
    let sized = write_octal entry.mtime_sec 136 12 (write_octal entry.size 124 12 owned) in
    let flagged = write_at 156 (typeflag ∷ []) (write_at 148 (codes "        ") sized) in
    let linked = write_link encoder entry.linkname flagged in
    let magic = write_at 263 (codes "00") (write_at 257 (codes "ustar" ++ 0 ∷ []) linked) in
    let prefixed = write_at 345 (encoder.fit 155 s.prefix) magic in
    let summed = write_at 148 (take 6 (pad_start 6 (octal (sum_bytes prefixed)))) prefixed in
    write_at 154 (0 ∷ 32 ∷ []) summed

abbrev typeflag_of : TarEntryType → ℕ
typeflag_of dir = 53
typeflag_of symlink = 50
typeflag_of file = 48

abbrev padding : ℕ → List ℕ
padding size = zeros (round_up_to_block size - size)

-- `streamFileExactly`: what reading the file gives, cut off or filled up with zeros.
stream_file_exactly : (Text → List ℕ) → Text → ℕ → List ℕ
stream_file_exactly read source size =
    let sent = take size (read source) in sent ++ zeros (size - length sent)

last_part : List Text → Text
last_part [] = codes "pax"
last_part (p ∷ []) = p
last_part (p ∷ q ∷ ps) = last_part (q ∷ ps)

pax_header_name : Encoder → Text → Text
unfolding truncate_utf8 split last_part
pax_header_name encoder name =
    truncate_utf8 encoder (codes "PaxHeaders/" ++ last_part (split name)) 100

extended : Encoder → TarEntry → Option (List ℕ) → List ℕ
unfolding pax_header_name
extended encoder entry none = []
extended encoder entry (some data_block) =
    build_header encoder
      (record {
        name = pax_header_name encoder entry.name;
        size = length data_block;
        mode = 420;
        mtime_sec = entry.mtime_sec;
        linkname = none;
      })
      120
    ++ data_block
    ++ padding (length data_block)

-- The content of a file that has a source and is not empty.
content : (Text → List ℕ) → TarEntryType → Option Text → ℕ → List ℕ
unfolding stream_file_exactly
content read file (some source) size =
    let bytes = stream_file_exactly read source size ++ padding size in
    if ltb 0 size then bytes else []
content read _ _ size = []

entry_chunks : Encoder → (Text → List ℕ) → TarEntry → List ℕ
unfolding extended content
entry_chunks encoder read entry =
    extended encoder entry (pax_data_for encoder entry)
    ++ build_header encoder
        (record {
          name = entry.name;
          size = entry.size;
          mode = entry.mode;
          mtime_sec = entry.mtime_sec;
          linkname = entry.linkname;
        })
        (typeflag_of entry.kind)
    ++ content read entry.kind entry.source entry.size

-- All that `generateTar` yields, one after the other.
unfoldable pub generate_tar : Encoder → (Text → List ℕ) → List TarEntry → List ℕ
unfolding entry_chunks
generate_tar encoder read [] = zeros block ++ zeros block
generate_tar encoder read (entry ∷ entries) =
    entry_chunks encoder read entry ++ generate_tar encoder read entries
