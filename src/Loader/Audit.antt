-- ===== src/Loader/Audit.antt =====
-- loader/audit.c: the rtld-audit library, which answers the dynamic linker's search for a library.
pub mod Search
use selfdb.Base.{
  ℕ, ◌==◌, if◌then◌else◌, Bool, true, false, not, ◌&&◌, ◌||◌, [], ◌∷◌, Option, none, some, Bytes,
  codes, equal, starts_with, Outcome, ok, fail, fault,
}
use selfdb.Loader.Db.{DbFile}
use selfdb.Loader.Image.{Allocator}
use selfdb.Loader.Image.Memfd.{Kernel, materialize_memfd}

-- What a name is replaced by: a path, or the "/proc/self/fd" path of a memfd with these bytes.
pub data Hit : Type 0 where
  plain : Bytes → Hit
  memfd : Bytes → Hit

-- `path` and `kind` of the soname's row in `objects`, each of them NULL or a text; `none` where
-- there is no row or no such table.
abbrev pub Objects : Type 0
Objects = Bytes → Option (Option Bytes × Option Bytes)

-- `g_db`: the database that SELF_SYSTEM_DB names, if the variable is set and SQLite can open it. Any
-- version that the linker offers is accepted.
unfoldable pub la_version : (Bytes → Option Objects) → Option Bytes → ℕ → ℕ × Option Objects
la_version opens none version = (version, none)
la_version opens (some path) version = (version, opens path)

-- A memfd that cannot be made is no hit.
unfoldable pub memfd_hit : Option (Outcome Bytes) → Option (Outcome (Option Hit))
memfd_hit none = none
memfd_hit (some (ok bytes)) = some (ok (some (memfd bytes)))
memfd_hit (some fail) = some (ok none)
memfd_hit (some fault) = some fault

-- `strchr(name, '/')`
unfoldable pub has_slash : Bytes → Bool
has_slash [] = false
has_slash (c ∷ cs) = c == b'/' || has_slash cs

abbrev pub la_ser_orig : ℕ
la_ser_orig = 1

-- `files path` is the file that the path names.
module _ (a : Allocator) (k : Kernel) (files : Bytes → Option DbFile) where
  unfoldable pub hit_of : Option (Option Bytes × Option Bytes) → Option (Outcome (Option Hit))
  hit_of none = some (ok none)
  hit_of (some (none, kind)) = some (ok none)
  hit_of (some (some path, none)) = some (ok none)
  hit_of (some (some path, some kind)) =
      if equal kind (codes "self")
      then memfd_hit (materialize_memfd a k (files path))
      else if equal kind (codes "elf")
      then some (ok (some (plain path)))
      else some (ok none)

  -- Without a database there is no hit.
  unfoldable pub resolve : Option Objects → Bytes → Option (Outcome (Option Hit))
  resolve none soname = some (ok none)
  resolve (some objects) soname = hit_of (objects soname)

  -- Without a hit, the linker gets the name itself back.
  unfoldable pub la_objsearch : Option Objects → Bytes → ℕ → Option (Outcome (Option Hit))
  la_objsearch g_db name flag =
      if flag == la_ser_orig
        && (not (starts_with name (codes "/proc/self/fd/")) && not (has_slash name))
      then resolve g_db name
      else some (ok none)
