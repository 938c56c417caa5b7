-- ===== src/Loader/Selfld/Whole.antt =====
-- `run_selfld` of loader/selfld.c as a whole: what is known when control leaves it.
use selfdb.Base.{◌≢◌, ℕ, ◌≡◌, List, [], ◌∷◌, ◌++◌, Option, some, Bytes, All}
use selfdb.Loader.Db.{Db}
use selfdb.Loader.Space.{Space, Kernel}
use selfdb.Loader.Native.Start.{Entered}
use selfdb.Loader.Selfld.{ObjectDb, Object, Exports, export_find, publish}
use selfdb.Loader.Selfld.Exports.{address_or, last_export}
use selfdb.Loader.Selfld.Relocate.{IsResolved}
use selfdb.Loader.Selfld.Run.{Resolver, resolve, preload_paths}

-- The table after the objects have been mapped, one after the other.
abbrev table : List Object → Exports → Exports
table [] syms = syms
table (o ∷ rest) syms = table rest (publish o.load_bias o.source.exported syms)

-- The address that a name has after them: that of the last row of the last object that exports it.
abbrev pub bound_address : Bytes → List Object → ℕ → ℕ
bound_address name [] before = before
bound_address name (o ∷ rest) before =
    bound_address name rest (address_or o.load_bias (last_export name o.source.exported) before)

module _ (files : Bytes → Option ObjectDb) where
  -- The objects are those of the paths, in order.
  abbrev pub Opened : List Bytes → List Object → Type 0
  Opened [] [] = Unit
  Opened [] (o ∷ os) = ⊥
  Opened (path ∷ paths) [] = ⊥
  Opened (path ∷ paths) (o ∷ os) = (files path ≡ some o.source) × Opened paths os

  -- The objects are those that the resolver finds for the sonames, in order.
  abbrev pub Found : Option Resolver → List Bytes → List Object → Type 0
  Found rdb [] [] = Unit
  Found rdb [] (o ∷ os) = ⊥
  Found rdb (soname ∷ rest) [] = ⊥
  Found rdb (soname ∷ rest) (o ∷ os) =
      ((path : Bytes) × (resolve rdb soname ≡ some path) × (files path ≡ some o.source))
      × Found rdb rest os

-- Every relocation of the object could be resolved in the table.
abbrev pub AllResolved : Exports → Object → Type 0
AllResolved syms o = All (IsResolved syms) o.source.relocations

-- What control is given over: the program, the objects of its closure and the preloads, and the
-- table against which all of them are bound.
pub record Bound (k : Kernel) (files : Bytes → Option ObjectDb) (rdb : Option Resolver)
    (path : Bytes) (e : Entered) : Type 0 where
  pub main_obj : Object
  pub libs : List Object
  pub preloads : List Object
  pub syms : Exports
  pub one_table :
      (name : Bytes)
      → name ≢ []
      → export_find name syms ≡ bound_address name (main_obj ∷ (libs ++ preloads)) 0
  pub entry_main : e.entry ≡ main_obj.entry
  pub opened : files path ≡ some main_obj.source
  pub closure : Found files rdb main_obj.source.needed libs
  pub interposed : Opened files (preload_paths k files rdb) preloads
  pub main_resolved : AllResolved syms main_obj
  pub libs_resolved : All (AllResolved syms) libs
  pub preloads_resolved : All (AllResolved syms) preloads
