-- ===== src/Loader/Exec.antt =====
-- loader/self-exec.c: `main` chooses the mode, and `run_memfd` executes the image that is rebuilt.
pub mod Modes
use selfdb.Base.{
  ℕ, if◌then◌else◌, Bool, List, [], ◌∷◌, Option, none, some, Bytes, codes, equal, Outcome, ok, fail,
  fault, ◌>>=◌,
}
use selfdb.Loader.Db.{Db, DbFile, db_open}
use selfdb.Loader.Image.{Allocator, Image, build_elf}
use selfdb.Loader.Image.Memfd
use selfdb.Loader.Image.Memfd.{materialize_image}
use selfdb.Loader.Space
use selfdb.Loader.Native.Start.{Host, Entered, run_native}
use selfdb.Loader.Selfld.{ObjectDb}
use selfdb.Loader.Selfld.Run.{Resolver, run_selfld}

-- What `execveat` gets: what the memfd holds, and the two vectors.
pub record Executed : Type 0 where
  pub file : Bytes
  pub argv : List Bytes
  pub envp : List Bytes

-- What runs at the end: the program that the kernel executes, or the code that is jumped to.
pub data Started : Type 0 where
  executed : Executed → Started
  entered : Entered → Started

-- The kernel, the process and the files. A path is a database, an ELF interpreter or an object of
-- the closure; `resolver` is the one that selfld opens.
pub record World : Type 0 where
  pub alloc : Allocator
  pub memfds : Memfd.Kernel
  pub execveat : Executed → Bool
  pub maps : Space.Kernel
  pub host : Host
  pub databases : Bytes → Option DbFile
  pub interps : Bytes → Option Bytes
  pub objects : Bytes → Option ObjectDb
  pub resolver : Option Resolver
  pub space : Space.Space

-- `execveat` returns only where it fails.
unfoldable pub execute :
    World → List Bytes → List Bytes → Option (Outcome Bytes) → Option (Outcome Started)
execute w argv envp none = none
execute w argv envp (some fault) = some fault
execute w argv envp (some fail) = some fail
execute w argv envp (some (ok file)) =
    let e : Executed = record { file = file; argv = argv; envp = envp } in
    if w.execveat e then some (ok (executed e)) else some fail

-- The outer `none` is a loop of writes that has not ended within as many rounds as there are bytes.
unfoldable pub run_image :
    World → List Bytes → List Bytes → Outcome Image → Option (Outcome Started)
run_image w argv envp (ok img) = execute w argv envp (materialize_image w.memfds img)
run_image w argv envp fail = some fail
run_image w argv envp fault = some fault

unfoldable pub run_memfd : World → Db → List Bytes → List Bytes → Option (Outcome Started)
run_memfd w db argv envp = run_image w argv envp (build_elf w.alloc db)

abbrev pub jumps : Outcome Entered → Outcome Started
jumps o = o >>= λ e. ok (entered e)

-- The value of SELF_MODE, `memfd` where it is not set.
unfoldable pub mode_of : Option Bytes → Bytes
mode_of none = codes "memfd"
mode_of (some mode) = mode

unfoldable pub run_mode :
    World → Bytes → Db → Bytes → List Bytes → List Bytes → Option (Outcome Started)
run_mode w mode db path argv envp =
    if equal mode (codes "memfd")
    then run_memfd w db argv envp
    else if equal mode (codes "native")
    then some (jumps (run_native w.maps w.host w.interps db path argv envp w.space))
    else if equal mode (codes "selfld")
    then some (jumps (run_selfld w.maps w.host w.objects w.resolver db path argv envp w.space))
    else some fail

-- `self_open`, and what runs behind it.
unfoldable pub with_db : Outcome Db → (Db → Option (Outcome Started)) → Option (Outcome Started)
with_db fault run = some fault
with_db fail run = some fail
with_db (ok db) run = run db

-- The target gets `argv + 1`: its own path first.
unfoldable pub main : World → Option Bytes → List Bytes → List Bytes → Option (Outcome Started)
main w mode [] envp = some fail
main w mode (argv0 ∷ []) envp = some fail
main w mode (argv0 ∷ path ∷ rest) envp =
    with_db (db_open (w.databases path)) λ db. run_mode w (mode_of mode) db path (path ∷ rest) envp
