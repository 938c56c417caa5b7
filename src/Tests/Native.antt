-- ===== src/Tests/Native.antt =====
-- loader/native.c at the small program with an interpreter: from an empty process to the jump.
use selfdb.Base.{
  false, ℕ, ◌+◌, ◌-◌, ◌^◌, ◌≤◌, ◌<◌, ◌≡◌, ◌⊎◌, ◌∙◌, refl, true, [], ◌∷◌, ◌++◌, some, none, Option,
  Bytes, codes, starts_with, ok, arith, inr, All,
}
use selfdb.Base.Word.{word, le_bytes, of_le}
use selfdb.Loader.Db.{Segment, get_text}
use selfdb.Loader.Image.{phdr_bytes, phdr_flags}
use selfdb.Loader.Image.Headers.{parse_phdr, field}
use selfdb.Loader.Space.{page, Space, align_down, align_up}
use selfdb.Loader.Native.{
  paged, zeros, Object, blob, widen, bounds_from, bounds, query_load, elf_magic, file_phdrs,
  map_interp,
}
use selfdb.Loader.Native.Span.{NoWrap}
use selfdb.Loader.Native.Loaded.{FitsRow, PagesApart, IsLoaded, Same}
use selfdb.Loader.Native.Program.{hole, bias_of}
use selfdb.Loader.Native.Interp.{AllLoaded, IsElf, segments_of, interp_rows, map_interp-Mapped}
use selfdb.Loader.Native.Start.{Entered, run_native, stack_size, map_interp_of}
use selfdb.Loader.Native.Start.Ready.{IsReady}
use selfdb.Loader.Native.Start.Whole.{NewHole, run_native-Loaded}
use selfdb.Tests.Stack.{demo_host, demo_argv, demo_envp}
use selfdb.Tests.Space.{
  willing, willing-Grants, nothing, reserved, demo_db, demo-HasKeys, demo_reserved, demo_fits,
  demo_apart, demo_exe, demo_mapped, demo_mapped_run, demo_free,
}

-- A note, which is not loaded.
abbrev linker_note : Segment
linker_note = record {
  is_load = false;
  ptype = 4;
  offset = 0;
  vaddr = 0;
  filesz = 4;
  memsz = 4;
  r = 1;
  w = 0;
  x = 0;
  align = 4;
  content = [];
}

-- Two pages of memory, of which the first two bytes are in the file.
abbrev linker_text : Segment
linker_text = record {
  is_load = true;
  ptype = 1;
  offset = 176;
  vaddr = 0;
  filesz = 2;
  memsz = 0x1800;
  r = 1;
  w = 0;
  x = 1;
  align = 0x1000;
  content = 0x90 ∷ 0xc3 ∷ [];
}

-- The ELF header, the program headers of the note and of the text, and two bytes of code.
unfoldable pub linker : Bytes
unfolding le_bytes phdr_bytes phdr_flags zeros
linker =
    elf_magic
    ++ (zeros 20
        ++ (le_bytes 8 1
            ++ (le_bytes 8 64
                ++ (zeros 16
                    ++ (le_bytes 2 2
                        ++ (zeros 6
                            ++ (phdr_bytes linker_note
                                ++ (phdr_bytes linker_text ++ linker_text.content))))))))

linker-IsElf : IsElf linker
unfolding linker starts_with of_le paged align_up align_down
linker-IsElf = record { nonempty = omega arith; magic = refl; table = omega arith }

linker_rows : interp_rows linker ≡ record linker_text { content = 0x90 ∷ 0xc3 ∷ zeros 3918 } ∷ []
unfolding linker segments_of file_phdrs parse_phdr of_le paged align_up align_down
linker_rows = refl

linker-bounds : bounds (interp_rows linker) ≡ record { min_v = 0; max_v = 0x1800 }
unfolding linker segments_of file_phdrs parse_phdr of_le paged align_up align_down bounds
    bounds_from widen
linker-bounds = refl

linker-hole : hole (bounds (interp_rows linker)) ≡ 0x2000
unfolding align_up align_down
linker-hole = rw linker-bounds refl

linker_bias : bias_of 0x20000 (bounds (interp_rows linker)) ≡ 0x20000
unfolding align_down
linker_bias = rw linker-bounds refl

linker_fits : All (FitsRow (bias_of 0x20000 (bounds (interp_rows linker)))) (interp_rows linker)
unfolding blob
linker_fits = rw (linker_bias, linker_rows) (omega arith, tt)

linker_apart : PagesApart (bias_of 0x20000 (bounds (interp_rows linker))) (interp_rows linker)
linker_apart = rw (linker_bias, linker_rows) (tt, tt)

linker-NoWrap : All NoWrap (interp_rows linker)
linker-NoWrap = rw linker_rows (omega arith, tt)

linker_top : (bounds (interp_rows linker)).max_v + (page - 1) < 2 ^ 64
linker_top = rw linker-bounds (omega arith)

linker_new : NewHole willing demo_mapped (hole (bounds (interp_rows linker))) 0x20000
linker_new = record {
  given = rw linker-hole refl;
  inside = record { on_page = refl; below = omega (arith, linker-hole) };
  unmapped = λ a h l. demo_free a (omega arith);
}

abbrev linker_object : Object
linker_object = record {
  load_bias = bias_of 0x20000 (bounds (interp_rows linker));
  entry = word (bias_of 0x20000 (bounds (interp_rows linker)) + field 24 8 (paged linker));
  phdr = 0;
  phnum = 0;
  phent = 0;
}

map_interp-Mapped_example :
    (s' : Space) × (map_interp willing (some linker) demo_mapped ≡ ok (linker_object, s'))
    × AllLoaded linker (bias_of 0x20000 (bounds (interp_rows linker))) s'
    × ((a : ℕ)
        → (a < 0x20000) ⊎ (0x20000 + hole (bounds (interp_rows linker)) ≤ a)
        → Same demo_mapped s' a)
map_interp-Mapped_example =
    map_interp-Mapped willing linker demo_mapped 0x20000 willing-Grants linker-IsElf
      linker_new.given linker_new.inside linker_top linker-NoWrap linker_fits linker_apart

both_mapped : Space
both_mapped =
    (map_interp-Mapped willing linker demo_mapped 0x20000 willing-Grants linker-IsElf
      linker_new.given linker_new.inside linker_top linker-NoWrap linker_fits linker_apart).0

both_run : map_interp willing (some linker) demo_mapped ≡ ok (linker_object, both_mapped)
unfolding both_mapped
both_run =
    (map_interp-Mapped willing linker demo_mapped 0x20000 willing-Grants linker-IsElf
      linker_new.given linker_new.inside linker_top linker-NoWrap linker_fits linker_apart).1

both_free : (a : ℕ) → 0x22000 ≤ a → both_mapped.prot a ≡ none
unfolding both_mapped
both_free a h =
    ((map_interp-Mapped willing linker demo_mapped 0x20000 willing-Grants linker-IsElf
        linker_new.given linker_new.inside linker_top linker-NoWrap linker_fits linker_apart).3
      a (inr (omega (arith, linker-hole)))).1
    ∙ demo_free a (omega arith)

stack_new : NewHole willing both_mapped stack_size 0x1000000
stack_new = record {
  given = refl;
  inside = record { on_page = refl; below = omega arith };
  unmapped = λ a h l. both_free a (omega arith);
}

abbrev disk : Bytes → Option Bytes
disk path = some linker

linker_path : get_text demo_db "interp" ≡ some (codes "/lib/ld.so")
unfolding get_text
linker_path = refl

both_found :
    map_interp_of willing disk (get_text demo_db "interp") demo_mapped
    ≡ ok (some linker_object, both_mapped)
unfolding map_interp_of
both_found = rw (linker_path, both_run) refl

run_native-Loaded_example :
    (e : Entered) × (run_native willing demo_host disk demo_db
        (codes "./hello.self")
        demo_argv
        demo_envp
        nothing
      ≡ ok e)
    × (e.entry ≡ linker_object.entry)
    × IsReady demo_host demo_exe
        (some linker_object)
        (codes "./hello.self")
        demo_argv
        demo_envp
        0x1000000
        (0x1000000 + stack_size)
        e.sp
        e.space.byte
    × All (IsLoaded 0xf000 e.space) (query_load demo_db)
    × AllLoaded linker (bias_of 0x20000 (bounds (interp_rows linker))) e.space
run_native-Loaded_example =
    run_native-Loaded willing demo_host disk demo_db (codes "./hello.self") demo_argv demo_envp
      nothing reserved demo_mapped both_mapped demo_exe linker_object (codes "/lib/ld.so") linker 3
      0x1078 64 1 56 0xf000 0x20000 0x1000000 willing-Grants refl demo-HasKeys demo_reserved
      demo_fits demo_apart demo_mapped_run linker_path refl linker-IsElf linker_new linker_top
      linker-NoWrap linker_fits linker_apart both_run stack_new (omega arith)
