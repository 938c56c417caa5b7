-- ===== src/Tests/Image.antt =====
-- loader/image.c at a small program: one load segment of two bytes.
use text.Mathlib.Text.{◌==◌ as str_eq}
use selfdb.Base.{
  ℕ, ◌+◌, ◌%◌, ◌^◌, ◌==◌, ◌≡◌, ◌⊎◌, refl, if◌then◌else◌, true, false, List, [], ◌∷◌, Option, none,
  some, String, codes, Outcome, ok, fail, fault, ◌>>=◌, >>=-step, arith, inl, inr, ◌∙◌,
}
use selfdb.Base.Word.{le_bytes}
use selfdb.Base.Memory.{store, load}
use selfdb.Loader.Audit.{Hit, Objects, has_slash, la_ser_orig, la_objsearch}
use selfdb.Loader.Audit.Search.{Allowed, la_objsearch-Allowed}
use selfdb.Loader.Db.{Segment, Db, DbFile, db_open, get_int}
use selfdb.Loader.Image.{
  Allocator, Header, Image, read_header, head_fields, tail_fields, phdr_flags, phdr_bytes, blank,
  query_segments, build_elf,
}
use selfdb.Loader.Image.Extent.{Grants, Fits}
use selfdb.Loader.Image.Fragments.{
  paint, ident_fields, pieces, Describes, load-IsPieceOf, paint-cover,
}
use selfdb.Loader.Image.Total.{build_elf-restores}
use selfdb.Loader.Image.Decoded.{IsElfOf}
use selfdb.Loader.Image.Headers.{parse_phdr, parse_phdr-phdr_bytes}
use selfdb.Loader.Image.Limits.{entry, build_elf-missing_key, build_elf-row_overflow}
use selfdb.Loader.Image.Memfd.{
  Kernel, IsWrite, image_bytes, materialize_memfd, materialize-all_or_nothing,
}

abbrev pub granting : Allocator
granting = record { calloc = λ n size. true; malloc = λ n. true }

pub granting-Grants : Grants granting
granting-Grants = record { calloc = λ n size. refl; malloc = λ n. refl }

-- `nop; ret`, at file offset 120.
abbrev pub text_segment : Segment
text_segment = record {
  is_load = true;
  ptype = 1;
  offset = 120;
  vaddr = 0x1078;
  filesz = 2;
  memsz = 16;
  r = 1;
  w = 0;
  x = 1;
  align = 0x1000;
  content = 0x90 ∷ 0xc3 ∷ [];
}

abbrev pub demo_rows : List Segment
demo_rows = text_segment ∷ []

abbrev pub demo_header : Header
demo_header = record {
  et = 3;
  em = 62;
  entry = 0x1078;
  phoff = 64;
  eflags = 0;
  phnum = 1;
  osabi = 3;
}

abbrev demo_meta : String → Option ℕ
demo_meta key =
    if str_eq key "et"
    then some 3
    else if str_eq key "em"
    then some 62
    else if str_eq key "entry"
    then some 0x1078
    else if str_eq key "phoff"
    then some 64
    else if str_eq key "eflags"
    then some 0
    else if str_eq key "phnum"
    then some 1
    else if str_eq key "phentsize"
    then some 56
    else if str_eq key "osabi"
    then some 3
    else none

abbrev pub demo_db : Db
demo_db = record { meta_int = demo_meta; meta_text = λ key. none; segments = some demo_rows }

-- The file that the rows describe.
abbrev pub demo_file : Image
demo_file = record { size = 122; at = paint (pieces demo_header demo_rows) blank }

pub demo_header_read : read_header demo_db ≡ ok demo_header
unfolding read_header get_int
demo_header_read = refl

pub demo_segments_read : query_segments demo_db ≡ ok demo_rows
unfolding query_segments
demo_segments_read = refl

pub demo-Fits : Fits demo_header demo_rows
demo-Fits = omega arith

blank_at : (x : ℕ) → blank x ≡ 0
unfolding blank
blank_at x = refl

pub demo-Describes : Describes demo_header demo_rows demo_file
unfolding paint blank store load le_bytes phdr_bytes phdr_flags
demo-Describes = record {
  size = refl;
  agree = (
    load-IsPieceOf demo_file.at 0 (ident_fields demo_header) refl,
    (
      load-IsPieceOf demo_file.at 16 (head_fields demo_header) refl,
      (
        load-IsPieceOf demo_file.at 48 (tail_fields demo_header) refl,
        (
          load-IsPieceOf demo_file.at 64 (phdr_bytes text_segment) refl,
          (load-IsPieceOf demo_file.at 120 text_segment.content refl, tt),
        ),
      ),
    ),
  );
  cover = λ x. elim (paint-cover (pieces demo_header demo_rows) blank x) [
    | inl c ↦ inl c
    | inr e ↦ inr (e ∙ blank_at x)
  ];
}

build_elf-restores_example :
    (build_elf granting demo_db ≡ ok demo_file) × IsElfOf demo_header demo_rows demo_file.at
build_elf-restores_example =
    build_elf-restores granting granting-Grants demo_db demo_header demo_rows demo_file
      demo_header_read demo_segments_read demo-Fits demo-Describes

magic_run : load 0 4 demo_file.at ≡ 0x7f ∷ b'E' ∷ b'L' ∷ b'F' ∷ []
unfolding paint blank store load le_bytes phdr_bytes phdr_flags
magic_run = refl

parse_phdr-phdr_bytes_example : parse_phdr (phdr_bytes text_segment) ≡ record {
  p_type = 1 % 2 ^ 32;
  p_flags = 4 + 0 + 1;
  p_offset = 120 % 2 ^ 64;
  p_vaddr = 0x1078 % 2 ^ 64;
  p_paddr = 0x1078 % 2 ^ 64;
  p_filesz = 2 % 2 ^ 64;
  p_memsz = 16 % 2 ^ 64;
  p_align = 0x1000 % 2 ^ 64;
}
parse_phdr-phdr_bytes_example = parse_phdr-phdr_bytes text_segment

abbrev keyless_db : Db
keyless_db = record { meta_int = λ key. none; meta_text = λ key. none; segments = some demo_rows }

build_elf-missing_key_example : build_elf granting keyless_db ≡ fail
build_elf-missing_key_example = build_elf-missing_key granting keyless_db entry refl

-- Two rows under a header that says one.
abbrev crowded_db : Db
crowded_db = record {
  meta_int = demo_meta;
  meta_text = λ key. none;
  segments = some (text_segment ∷ text_segment ∷ []);
}

crowded_header_read : read_header crowded_db ≡ ok demo_header
unfolding read_header get_int
crowded_header_read = refl

crowded_segments_read : query_segments crowded_db ≡ ok (text_segment ∷ text_segment ∷ [])
unfolding query_segments
crowded_segments_read = refl

build_elf-row_overflow_example : build_elf granting crowded_db ≡ fault
build_elf-row_overflow_example =
    build_elf-row_overflow granting crowded_db demo_header (text_segment ∷ text_segment ∷ [])
      granting-Grants crowded_header_read crowded_segments_read (omega arith)

-- A kernel that takes one byte at a time.
abbrev pub slow_kernel : Kernel
slow_kernel = record { memfd = true; write = λ n len. if len == 0 then none else some 1 }

pub slow-IsWrite : IsWrite slow_kernel
slow-IsWrite n len w h = ground arith

abbrev pub demo_db_file : Option DbFile
demo_db_file = some (record { application_id = some (some 0x53454C46); db = demo_db })

pub demo_opened : db_open demo_db_file ≡ ok demo_db
unfolding db_open
demo_opened = refl

demo_built : (db_open demo_db_file >>= build_elf granting) ≡ ok demo_file
demo_built = >>=-step _ demo_opened (
    (build_elf-restores granting granting-Grants demo_db demo_header demo_rows demo_file
      demo_header_read demo_segments_read demo-Fits demo-Describes).0)

materialize-all_or_nothing_example :
    (materialize_memfd granting slow_kernel demo_db_file ≡ some (ok (image_bytes demo_file)))
    ⊎ (materialize_memfd granting slow_kernel demo_db_file ≡ some fail)
materialize-all_or_nothing_example =
    materialize-all_or_nothing slow_kernel slow-IsWrite granting demo_db_file demo_file demo_built

abbrev demo_objects : Objects
demo_objects name = some (some (codes "/libdemo.self"), some (codes "self"))

abbrev demo_answer : Option (Outcome (Option Hit))
demo_answer =
    la_objsearch granting slow_kernel (λ path. demo_db_file) (some demo_objects)
      (codes "libdemo.so") 1

la_objsearch-Allowed_example :
    (demo_answer ≡ some (ok none))
    ⊎ (((1 == la_ser_orig) ≡ true)
        × (has_slash (codes "libdemo.so") ≡ false)
        × Allowed granting slow_kernel
            (λ path. demo_db_file)
            slow-IsWrite
            (λ path. inl (demo_file, demo_built))
            (demo_objects (codes "libdemo.so"))
            demo_answer)
la_objsearch-Allowed_example =
    la_objsearch-Allowed granting slow_kernel (λ path. demo_db_file) slow-IsWrite
      (λ path. inl (demo_file, demo_built)) demo_objects (codes "libdemo.so") 1
