-- ===== src/Tests/Link.antt =====
-- loader/selfld.c at a library with one function, and a program that calls it.
use selfdb.Base.{
  ℕ, ◌+◌, ◌-◌, ◌^◌, ◌≡◌, refl, true, List, [], ◌∷◌, ◌++◌, Option, none, some, Bytes, codes, equal,
  ok, arith, inl, All,
}
use selfdb.Base.Word.{word, le_bytes}
use selfdb.Base.Memory.{store}
use selfdb.Loader.Db.{Db, get_int, column_int}
use selfdb.Loader.Space.{Space, Kernel, align_down, align_up, map_pages, reserve_span}
use selfdb.Loader.Native.{bounds, bounds_from, widen, query_load, load_rows}
use selfdb.Loader.Native.Start.{Host}
use selfdb.Loader.Selfld.{
  publish_blocks, export_blocks, Reloc, ObjectDb, Object, Process, Exports, export_add, export_find,
  publish_one, publish, map_object, map_loads, entry_of, writable, all_writable, symbol_address,
  write_slot, apply_symbol, apply_reloc, relocate,
}
use selfdb.Loader.Selfld.Exports.{last_export}
use selfdb.Loader.Selfld.Relocate.{
  relative, jump_slot, CanBind, SlotsApart, Relocated, relocate-Relocated,
}
use selfdb.Loader.Selfld.Run.{
  run_selfld, map_paths, map_paths-interposes, run_selfld-drops_arguments,
}

abbrev puts : Bytes
puts = codes "puts"

abbrev demo_syms : Exports
demo_syms = (puts, 0x5000) ∷ []

abbrev pub puts_reloc : Reloc
puts_reloc = record { offset = 0x10; rtype = 7; addend = 9; name = some puts }

abbrev demo_relocs : List Reloc
demo_relocs = record { offset = 0; rtype = 8; addend = 0x40; name = none } ∷ puts_reloc ∷ []

abbrev pub writable_space : Space
writable_space = record { byte = λ a. 0; prot = λ a. some 3 }

demo-CanBind : All (CanBind 0x1000 demo_syms writable_space.prot) demo_relocs
unfolding symbol_address export_find equal all_writable writable
demo-CanBind = (
  record {
    value = 0x1040;
    binds = relative refl refl;
    writes = refl;
    no_addend = λ e. absurd (omega arith);
  },
  (
    record {
      value = 0x5000;
      binds = jump_slot refl (λ e. omega arith) refl;
      writes = refl;
      no_addend = λ e. absurd (omega arith);
    },
    tt,
  ),
)

demo-SlotsApart : SlotsApart 0x1000 demo_relocs
demo-SlotsApart = ((inl (omega arith), tt), (tt, tt))

relocate-Relocated_example :
    (s' : Space) × (relocate 0x1000 demo_syms demo_relocs writable_space ≡ ok s')
    × Relocated 0x1000 demo_syms demo_relocs writable_space s'
relocate-Relocated_example =
    relocate-Relocated 0x1000 demo_syms demo_relocs writable_space demo-CanBind demo-SlotsApart

abbrev demo_bound : Space
demo_bound = record {
  byte = store 0x1010 (le_bytes 8 0x5000) (store 0x1000 (le_bytes 8 0x1040) (λ a. 0));
  prot = λ a. some 3;
}

demo_bound_run : relocate 0x1000 demo_syms demo_relocs writable_space ≡ ok demo_bound
unfolding relocate apply_reloc apply_symbol column_int write_slot symbol_address export_find equal
    all_writable writable
demo_bound_run = refl

abbrev demo_exported : List (Option Bytes × ℕ)
demo_exported = (some puts, 0x40) ∷ (none, 0x44) ∷ (some puts, 0x48) ∷ []

last_row_wins : export_find puts (publish 0x2000 demo_exported demo_syms) ≡ 0x2048
unfolding export_find publish publish_one export_add equal
last_row_wins = refl

abbrev pub empty_db : Db
empty_db = record { meta_int = λ key. none; meta_text = λ key. none; segments = some [] }

abbrev pub shim : ObjectDb
shim = record { db = empty_db; exported = (some puts, 0x40) ∷ []; relocations = []; needed = [] }

abbrev shim_files : Bytes → Option ObjectDb
shim_files path = some shim

abbrev pub willing : Kernel
willing = record {
  reserve = λ s n. some 0x10000;
  fixed = λ p n. true;
  mprotect = λ p n v. true;
  malloc = λ n. true;
}

abbrev started : Process
started = record { space = writable_space; syms = demo_syms }

-- The empty span of an object with no segments, as the code computes it.
abbrev shim_process : Process
shim_process = record {
  space = map_pages 0x10000 0x1000 0 writable_space;
  syms = (puts, word (word (0x10000 + 2 ^ 64 - (2 ^ 64 - 4096)) + 0x40)) ∷ demo_syms;
}

abbrev shim_object : Object
shim_object = record {
  source = shim;
  load_bias = word (0x10000 + 2 ^ 64 - (2 ^ 64 - 4096));
  entry = 0;
}

shim_mapped :
    map_paths willing shim_files 0 ([] ++ codes "shim.self" ∷ []) started
    ≡ ok (shim_object ∷ [], shim_process)
unfolding map_paths map_object reserve_span bounds bounds_from widen query_load load_rows align_down
    align_up map_loads entry_of get_int publish publish_one export_add publish_blocks export_blocks
shim_mapped = refl

map_paths-interposes_example :
    (front : List Object) × (obj : Object) × (shim_object ∷ [] ≡ front ++ obj ∷ [])
    × (obj.source ≡ shim)
    × (export_find puts shim_process.syms ≡ word (obj.load_bias + 0x40))
map_paths-interposes_example =
    map_paths-interposes willing shim_files [] 0 (codes "shim.self") shim started shim_process
      (shim_object ∷ []) puts 0x40 refl (λ e. cc) shim_exports shim_mapped
  where
    shim_exports : last_export puts shim.exported ≡ some 0x40
    shim_exports = unfold equal in refl

abbrev pub x86_db : Db
x86_db = record { meta_int = λ key. some 62; meta_text = λ key. none; segments = some [] }

abbrev pub demo_host : Host
demo_host = record {
  random = none;
  uid = 0;
  euid = 0;
  gid = 0;
  egid = 0;
  clktck = 100;
  hwcap = 0;
  hwcap2 = 0;
  sysinfo = 0;
}

run_selfld-drops_arguments_example :
    run_selfld willing demo_host shim_files none x86_db
      (codes "a.self")
      (codes "a.self" ∷ codes "-v" ∷ [])
      []
      writable_space
    ≡ run_selfld willing demo_host shim_files none x86_db
        (codes "a.self")
        (codes "a.self" ∷ [])
        []
        writable_space
run_selfld-drops_arguments_example =
    run_selfld-drops_arguments willing demo_host shim_files none x86_db (codes "a.self")
      (codes "a.self") (codes "-v" ∷ []) [] [] writable_space
