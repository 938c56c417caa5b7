-- ===== src/Tests/Space.antt =====
-- loader/native.c at the small program: mapping it.
use text.Mathlib.Text.{◌==◌ as str_eq}
use selfdb.Base.{
  ℕ, ◌+◌, ◌*◌, ◌^◌, ◌==◌, ◌≡◌, ◌≤◌, refl, if◌then◌else◌, true, [], ◌∷◌, Option, none, some, String,
  codes, ok, arith, inr, All,
}
use mathlib.Core.List.Perm
use selfdb.Base.Word.{word}
use selfdb.Loader.Db.{Segment, Db}
use selfdb.Loader.Space.{Space, Kernel, align_down, align_up, map_pages, reserve_span}
use selfdb.Loader.Space.Place.{Grants}
use selfdb.Loader.Native.{
  Object, blob, widen, bounds_from, bounds, load_rows, query_load, map_program,
}
use selfdb.Loader.Native.Span.{NoWrap, bounds-perm}
use selfdb.Loader.Native.Loaded.{FitsRow, PagesApart, Mapped, PhdrFrom, Same}
use selfdb.Loader.Native.Program.{HasKeys, hole, bias_of, map_program-Mapped, map_program-confined}

-- `nop; ret`, at 0x1078 in memory and 120 in the file.
abbrev text_segment : Segment
text_segment = record {
  is_load = true;
  ptype = 1;
  offset = 120;
  vaddr = 0x1078;
  filesz = 2;
  memsz = 16;
  r = 1;
  w = 0;
  x = 1;
  align = 0x1000;
  content = 0x90 ∷ 0xc3 ∷ [];
}

abbrev demo_meta : String → Option ℕ
demo_meta key =
    if str_eq key "et"
    then some 3
    else if str_eq key "entry"
    then some 0x1078
    else if str_eq key "phoff"
    then some 64
    else if str_eq key "phnum"
    then some 1
    else if str_eq key "phentsize"
    then some 56
    else if str_eq key "em"
    then some 62
    else none

abbrev pub demo_db : Db
demo_db = record {
  meta_int = demo_meta;
  meta_text = λ key. if str_eq key "interp" then some (some (codes "/lib/ld.so")) else none;
  segments = some (text_segment ∷ []);
}

-- A kernel that puts the stack at 0x1000000, a hole of two pages at 0x20000 and any other at 0x10000,
-- and refuses nothing.
abbrev pub willing : Kernel
willing = record {
  reserve = λ s n.
      if n == 8 * 2 ^ 20
      then some 0x1000000
      else if n == 0x2000
      then some 0x20000
      else some 0x10000;
  fixed = λ p n. true;
  mprotect = λ p n v. true;
  malloc = λ n. true;
}

pub willing-Grants : Grants willing
willing-Grants = record { fixed = λ p n. refl; mprotect = λ p n v. refl; malloc = λ n. refl }

abbrev pub nothing : Space
nothing = record { byte = λ a. 0; prot = λ a. none }

pub demo-HasKeys : HasKeys demo_db 3 0x1078 64 1 56
demo-HasKeys = record {
  has_et = refl;
  has_entry = refl;
  has_phoff = refl;
  has_phnum = refl;
  has_phent = refl;
}

pub demo_bounds : bounds (query_load demo_db) ≡ record { min_v = 0x1078; max_v = 0x1088 }
unfolding bounds bounds_from widen query_load load_rows
demo_bounds = refl

-- The hole is one page, at 0x10000 for the addresses from 0x1000 on.
abbrev pub reserved : Space
reserved = map_pages 0x10000 0x1000 0 nothing

pub demo_reserved :
    reserve_span willing
      (bounds (query_load demo_db)).min_v
      (bounds (query_load demo_db)).max_v
      (3 == 3)
      nothing
    ≡ ok (0xf000, reserved)
unfolding bounds bounds_from widen query_load load_rows reserve_span align_down align_up
demo_reserved = refl

pub demo_fits : All (FitsRow 0xf000) (query_load demo_db)
unfolding query_load load_rows blob
demo_fits = (omega arith, tt)

pub demo_apart : PagesApart 0xf000 (query_load demo_db)
unfolding query_load load_rows
demo_apart = (tt, tt)

map_program-Mapped_example :
    (phdr : ℕ) × (s' : Space) × (map_program willing demo_db nothing
      ≡ ok (
        record {
          load_bias = 0xf000;
          entry = word (0xf000 + 0x1078);
          phdr = phdr;
          phnum = 1;
          phent = 56;
        },
        s',
      ))
    × Mapped 0xf000 (query_load demo_db) reserved s'
    × PhdrFrom 0xf000 64 0 (query_load demo_db) phdr
map_program-Mapped_example =
    map_program-Mapped willing demo_db nothing reserved 3 0x1078 64 1 56 0xf000 willing-Grants
      demo-HasKeys demo_reserved demo_fits demo_apart

pub demo_hole : hole (bounds (query_load demo_db)) ≡ 0x1000
unfolding bounds bounds_from widen query_load load_rows align_down align_up
demo_hole = refl

pub demo_bias : bias_of 0x10000 (bounds (query_load demo_db)) ≡ 0xf000
unfolding bounds bounds_from widen query_load load_rows align_down align_up
demo_bias = refl

pub demo-NoWrap : All NoWrap (query_load demo_db)
unfolding query_load load_rows
demo-NoWrap = (omega arith, tt)

pub demo_phdr : ℕ
demo_phdr =
    (map_program-Mapped willing demo_db nothing reserved 3 0x1078 64 1 56 0xf000 willing-Grants
      demo-HasKeys demo_reserved demo_fits demo_apart).0

pub demo_mapped : Space
demo_mapped =
    (map_program-Mapped willing demo_db nothing reserved 3 0x1078 64 1 56 0xf000 willing-Grants
      demo-HasKeys demo_reserved demo_fits demo_apart).1

pub demo_mapped_run :
    map_program willing demo_db nothing
    ≡ ok (
      record {
        load_bias = 0xf000;
        entry = word (0xf000 + 0x1078);
        phdr = demo_phdr;
        phnum = 1;
        phent = 56;
      },
      demo_mapped,
    )
unfolding demo_phdr demo_mapped
demo_mapped_run =
    (map_program-Mapped willing demo_db nothing reserved 3 0x1078 64 1 56 0xf000 willing-Grants
      demo-HasKeys demo_reserved demo_fits demo_apart).2

abbrev pub demo_exe : Object
demo_exe = record {
  load_bias = 0xf000;
  entry = word (0xf000 + 0x1078);
  phdr = demo_phdr;
  phnum = 1;
  phent = 56;
}

-- The byte behind the hole.
map_program-confined_example : Same nothing demo_mapped 0x11000
map_program-confined_example =
    map_program-confined willing demo_db nothing demo_mapped demo_exe 3 0x1078 64 1 56 0x10000
      willing-Grants demo-HasKeys refl (rw demo_hole refl)
      (record { on_page = refl; below = omega (arith, demo_hole) }) (rw demo_bounds (omega arith))
      demo-NoWrap (rw demo_bias demo_fits) (rw demo_bias demo_apart) demo_mapped_run 0x11000
      (inr (omega (arith, demo_hole)))

-- The pages behind the hole are free.
pub demo_free : (a : ℕ) → 0x11000 ≤ a → demo_mapped.prot a ≡ none
demo_free a h =
    (map_program-confined willing demo_db nothing demo_mapped demo_exe 3 0x1078 64 1 56 0x10000
      willing-Grants demo-HasKeys refl (rw demo_hole refl)
      (record { on_page = refl; below = omega (arith, demo_hole) }) (rw demo_bounds (omega arith))
      demo-NoWrap (rw demo_bias demo_fits) (rw demo_bias demo_apart) demo_mapped_run a
      (inr (omega (arith, demo_hole)))).1

abbrev data_segment : Segment
data_segment = record text_segment { vaddr = 0x3000; filesz = 0; content = [] }

bounds-perm_example :
    bounds (text_segment ∷ data_segment ∷ []) ≡ bounds (data_segment ∷ text_segment ∷ [])
bounds-perm_example =
    bounds-perm (text_segment ∷ data_segment ∷ []) (data_segment ∷ text_segment ∷ [])
      (Perm.swap _ _ _)
