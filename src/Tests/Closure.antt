-- ===== src/Tests/Closure.antt =====
-- loader/selfld.c, `run_selfld` at a program that calls a function of a library, with a preload.
use selfdb.Base.{
  [], ◌∷◌, Option, some, Bytes, codes, equal, if◌then◌else◌, Outcome, ok, fail, fault,
}
use selfdb.Loader.Native.Start.{Entered}
use selfdb.Loader.Selfld.{ObjectDb}
use selfdb.Loader.Selfld.Run.{Resolver, run_selfld}
use selfdb.Tests.Link.{shim, willing, x86_db, demo_host, puts_reloc, empty_db, writable_space}

abbrev caller : ObjectDb
caller = record {
  db = empty_db;
  exported = [];
  relocations = puts_reloc ∷ [];
  needed = codes "libputs.so" ∷ [];
}

abbrev closure_files : Bytes → Option ObjectDb
unfolding equal
closure_files path = if equal path (codes "a.self") then some caller else some shim

abbrev closure_resolver : Resolver
closure_resolver = record {
  find = λ soname. some (codes "libputs.self");
  preload = some (codes "shim.self" ∷ []);
}

closure_run : Outcome Entered
closure_run =
    run_selfld willing demo_host closure_files (some closure_resolver) x86_db (codes "a.self")
      (codes "a.self" ∷ []) [] writable_space

entered : Outcome Entered → Entered
entered (ok e) = e
entered fail = record { sp = 0; entry = 0; space = writable_space }
entered fault = record { sp = 0; entry = 0; space = writable_space }
