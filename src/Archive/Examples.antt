-- ===== src/Archive/Examples.antt =====
-- A directory, a file that has shrunk since the plan, and a link, in an encoder for ASCII.
use agent_platform_api.Common.{
  ℕ, ◌≡◌, ◌≤◌, arith, refl, Text, codes, take, none, some, List, [], ◌∷◌, All, inl, inr, length,
}
use agent_platform_api.Archive.{
  Encoder, HeaderFields, octal, digits, build_header, IsUtf8, TarEntry, TarEntryType, generate_tar,
  total_bytes, pax_body, pax_record,
}
use agent_platform_api.Archive.Sizes.{IsPlannable, generate_tar-total_bytes}
use agent_platform_api.Archive.Fields.{read_octal, read-build_header}
use agent_platform_api.Archive.Pax.{Tells, pax_record-Tells}

abbrev ascii : Encoder
ascii = record { utf8 = λ s. s; fit = λ n s. take n s }

ascii-IsUtf8 : IsUtf8 ascii
ascii-IsUtf8 = record { of_nil = refl; of_ascii = λ c s h. refl }

abbrev entries : List TarEntry
entries =
    record {
      name = codes "docs/";
      kind = TarEntryType.dir;
      source = none;
      size = 0;
      mode = 493;
      mtime_sec = 1000;
      linkname = none;
    }
    ∷ record {
      name = codes "docs/a.txt";
      kind = TarEntryType.file;
      source = some (codes "/kept/docs/a.txt");
      size = 600;
      mode = 420;
      mtime_sec = 1000;
      linkname = none;
    }
    ∷ record {
      name = codes "docs/b.txt";
      kind = TarEntryType.symlink;
      source = none;
      size = 0;
      mode = 511;
      mtime_sec = 1000;
      linkname = some (codes "a.txt");
    }
    ∷ []

abbrev shrunk : Text → List ℕ
shrunk path = codes "short"

entries-IsPlannable : All IsPlannable entries
entries-IsPlannable = (inr refl, (inl refl, (inr refl, tt)))

generate_tar-total_bytes_example :
    length (generate_tar ascii shrunk entries) ≡ total_bytes ascii entries
generate_tar-total_bytes_example = generate_tar-total_bytes ascii shrunk entries entries-IsPlannable

pax_record-Tells_example :
    Tells ascii ascii-IsUtf8
      (pax_body (codes "path") (codes "docs/a.txt"))
      (pax_record ascii (codes "path") (codes "docs/a.txt"))
pax_record-Tells_example = pax_record-Tells ascii ascii-IsUtf8 (codes "path") (codes "docs/a.txt")

abbrev fields : HeaderFields
fields = record {
  name = codes "docs/a.txt";
  size = 600;
  mode = 420;
  mtime_sec = 1788000000;
  linkname = none;
}

size_fits : length (octal fields.size) ≤ 11
unfolding octal digits
size_fits = omega arith

time_fits : length (octal fields.mtime_sec) ≤ 11
unfolding octal digits
time_fits = omega arith

read-build_header_example :
    (read_octal 124 136 (build_header ascii fields 48) ≡ 600)
    × (read_octal 136 148 (build_header ascii fields 48) ≡ 1788000000)
read-build_header_example = read-build_header ascii fields 48 size_fits time_fits
