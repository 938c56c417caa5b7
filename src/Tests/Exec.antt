-- ===== src/Tests/Exec.antt =====
-- loader/self-exec.c with the program of `Tests.Image`.
use selfdb.Base.{◌≡◌, ◌⊎◌, true, false, List, [], ◌∷◌, none, some, Bytes, codes, ok, fail}
use selfdb.Loader.Db.{Db}
use selfdb.Loader.Image.{build_elf}
use selfdb.Loader.Image.Total.{build_elf-restores}
use selfdb.Loader.Image.Memfd.{image_bytes}
use selfdb.Loader.Exec.{World, Started, executed}
use selfdb.Loader.Exec
use selfdb.Loader.Exec.Modes.{main-memfd}
use selfdb.Tests.Image.{
  granting, granting-Grants, demo_db, demo_header, demo_rows, demo_file, demo_header_read,
  demo_segments_read, demo-Fits, demo-Describes, slow_kernel, slow-IsWrite, demo_db_file,
  demo_opened,
}

-- The program is executed with its own arguments.
abbrev demo_world : World
demo_world = record {
  alloc = granting;
  memfds = slow_kernel;
  execveat = λ e. true;
  maps = record {
    reserve = λ s n. none;
    fixed = λ p n. false;
    mprotect = λ p n v. false;
    malloc = λ n. true;
  };
  host = record {
    random = none;
    uid = 0;
    euid = 0;
    gid = 0;
    egid = 0;
    clktck = 100;
    hwcap = 0;
    hwcap2 = 0;
    sysinfo = 0;
  };
  databases = λ path. demo_db_file;
  interps = λ path. none;
  objects = λ path. none;
  resolver = none;
  space = record { byte = λ a. 0; prot = λ a. none };
}

demo_image : build_elf granting demo_db ≡ ok demo_file
demo_image =
    (build_elf-restores granting granting-Grants demo_db demo_header demo_rows demo_file
      demo_header_read demo_segments_read demo-Fits demo-Describes).0

abbrev demo_argv : List Bytes
demo_argv = codes "self-exec" ∷ codes "/demo.self" ∷ codes "-v" ∷ []

abbrev demo_started : Started
demo_started = executed (record {
  file = image_bytes demo_file;
  argv = codes "/demo.self" ∷ codes "-v" ∷ [];
  envp = [];
})

main-memfd_example :
    (Exec.main demo_world none demo_argv [] ≡ some fail)
    ⊎ (Exec.main demo_world none demo_argv [] ≡ some (ok demo_started))
main-memfd_example =
    main-memfd demo_world (codes "self-exec") (codes "/demo.self") (codes "-v" ∷ []) [] demo_db
      demo_file slow-IsWrite demo_opened demo_image
