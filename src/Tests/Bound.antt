-- ===== src/Tests/Bound.antt =====
-- loader/selfld.c at the small program as an object of a closure: loaded, then relocated.
use selfdb.Base.{
  ℕ, ◌+◌, ◌-◌, ◌^◌, ◌≤◌, ◌<◌, ◌≡◌, ◌⊎◌, refl, [], ◌∷◌, some, none, codes, ok, arith, inl, All,
}
use selfdb.Base.Word.{word}
use selfdb.Loader.Space.{page, Space}
use selfdb.Loader.Native.{bounds, query_load, load_rows}
use selfdb.Loader.Native.Loaded.{FitsRow, PagesApart, IsLoaded, Same}
use selfdb.Loader.Native.Program.{hole, bias_of, IsHole}
use selfdb.Loader.Selfld.{Reloc, Object, ObjectDb, Process, entry_of, publish, map_object, relocate}
use selfdb.Loader.Selfld.Relocate.{relative, Relocated}
use selfdb.Loader.Selfld.Loaded.{writable_rows, map_object-Mapped}
use selfdb.Loader.Selfld.Bound.{HasSlot, map_object-Relocated}
use selfdb.Tests.Space.{
  willing, willing-Grants, nothing, demo_db, demo_bounds, demo_hole, demo_bias, demo-NoWrap,
  demo_fits, demo_apart,
}

-- One relocation, of the last word of the text segment.
abbrev demo_reloc : Reloc
demo_reloc = record { offset = 0x1080; rtype = 8; addend = 0x1078; name = none }

abbrev demo_source : ObjectDb
demo_source = record {
  db = demo_db;
  exported = (some (codes "start"), 0x1078) ∷ [];
  relocations = demo_reloc ∷ [];
  needed = [];
}

abbrev empty_process : Process
empty_process = record { space = nothing; syms = [] }

abbrev demo_at : ℕ
demo_at = bias_of 0x10000 (bounds (query_load demo_db))

demo-IsHole : IsHole 0x10000 (hole (bounds (query_load demo_db)))
demo-IsHole = record { on_page = refl; below = omega (arith, demo_hole) }

demo_top : (bounds (query_load demo_db)).max_v + (page - 1) < 2 ^ 64
demo_top = rw demo_bounds (omega arith)

demo_fits_at : All (FitsRow demo_at) (query_load demo_db)
demo_fits_at = rw demo_bias demo_fits

demo_apart_at : PagesApart demo_at (query_load demo_db)
demo_apart_at = rw demo_bias demo_apart

map_object-Mapped_example :
    (s' : Space) × (map_object willing (some demo_source) empty_process
      ≡ ok (
        record { source = demo_source; load_bias = demo_at; entry = entry_of demo_db demo_at },
        record { space = s'; syms = publish demo_at ((some (codes "start"), 0x1078) ∷ []) [] },
      ))
    × All (IsLoaded demo_at s') (writable_rows (query_load demo_db))
    × ((a : ℕ)
        → (a < 0x10000) ⊎ (0x10000 + hole (bounds (query_load demo_db)) ≤ a)
        → Same nothing s' a)
map_object-Mapped_example =
    map_object-Mapped willing demo_source empty_process 0x10000 willing-Grants (rw demo_hole refl)
      demo-IsHole demo_top demo-NoWrap demo_fits_at demo_apart_at

demo-HasSlot :
    All
      (HasSlot demo_at (publish demo_at demo_source.exported []) (query_load demo_db))
      (demo_reloc ∷ [])
unfolding query_load load_rows
demo-HasSlot = (
  record {
    value = word (demo_at + 0x1078);
    binds = relative refl refl;
    in_rows = inl (omega (arith, demo_bias));
    no_addend = λ e. absurd (omega arith);
  },
  tt,
)

map_object-Relocated_example :
    (obj : Object) × (p' : Process) × (s' : Space) × (map_object willing
        (some demo_source)
        empty_process
      ≡ ok (obj, p'))
    × (obj.load_bias ≡ demo_at)
    × All (IsLoaded demo_at p'.space) (writable_rows (query_load demo_db))
    × (relocate obj.load_bias p'.syms (demo_reloc ∷ []) p'.space ≡ ok s')
    × Relocated demo_at p'.syms (demo_reloc ∷ []) p'.space s'
map_object-Relocated_example =
    map_object-Relocated willing demo_source empty_process 0x10000 willing-Grants
      (rw demo_hole refl) demo-IsHole demo_top demo-NoWrap demo_fits_at demo_apart_at demo-HasSlot
      (tt, tt)
