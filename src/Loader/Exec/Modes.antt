-- ===== src/Loader/Exec/Modes.antt =====
-- What loader/self-exec.c runs.
use selfdb.Base.{
  ℕ, ◌+◌, ◌*◌, ◌%◌, ◌^◌, ◌≡◌, ◌⊎◌, inl, inr, refl, List, ◌∷◌, Option, none, some, Bytes, equal, ok,
  fail, Bool-cases,
}
use selfdb.Loader.Db.{Db, DbFile, db_open}
use selfdb.Loader.Image.{Image, build_elf}
use selfdb.Loader.Image.Memfd.{IsWrite, image_bytes, materialize_image_total}
use selfdb.Loader.Exec.{
  World, Executed, executed, execute, run_image, run_memfd, mode_of, run_mode, with_db, main,
}

-- A file that SQLite opens and whose application_id is the four bytes SELF.
pub record IsSelf (f : Option DbFile) (db : Db) : Type 0 where
  pub file : DbFile
  pub id : ℕ
  pub opened : f ≡ some file
  pub has_id : file.application_id ≡ some (some id)
  pub says_self : id % 2 ^ 32 ≡ ((b'S' * 256 + b'E') * 256 + b'L') * 256 + b'F'
  pub is_db : file.db ≡ db

module _ (w : World) where
  run_image-cases :
      (argv envp : List Bytes) (img : Image)
      → IsWrite w.memfds
      → (run_image w argv envp (ok img) ≡ some fail)
        ⊎ (run_image w argv envp (ok img)
            ≡ some (ok (executed (record { file = image_bytes img; argv = argv; envp = envp }))))
  unfolding run_image execute
  run_image-cases argv envp img takes = elim (materialize_image_total w.memfds takes img) [
    | inr failed ↦ inl (rw failed refl)
    | inl whole ↦
        let e : Executed = record { file = image_bytes img; argv = argv; envp = envp } in
        elim (Bool-cases (w.execveat e)) [
          | inl runs ↦ inr (rw (whole, runs) refl)
          | inr refused ↦ inl (rw (whole, refused) refl)
        ]
  ]

  -- By default, the whole image is executed, with the arguments from the program's path on and the
  -- environment as it is; or the program dies, and nothing is executed. Conditions: the path names a
  -- SELF database whose image can be built, and a `write` that succeeds takes at least one byte and
  -- no more than it is given.
  pub main-memfd :
      (argv0 path : Bytes) (rest envp : List Bytes) (db : Db) (img : Image)
      → IsWrite w.memfds
      → db_open (w.databases path) ≡ ok db
      → build_elf w.alloc db ≡ ok img
      → (main w none (argv0 ∷ path ∷ rest) envp ≡ some fail)
        ⊎ (main w none (argv0 ∷ path ∷ rest) envp
            ≡ some (
                ok (executed (record { file = image_bytes img; argv = path ∷ rest; envp = envp }))))
  unfolding main with_db run_mode mode_of run_memfd equal
  main-memfd argv0 path rest envp db img takes opened built =
      rw (opened, built) (run_image-cases (path ∷ rest) envp img takes)
