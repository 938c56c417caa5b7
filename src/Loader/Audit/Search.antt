-- ===== src/Loader/Audit/Search.antt =====
-- What loader/audit.c may answer to a search.
use selfdb.Base.{
  ℕ, ◌==◌, ◌≡◌, ◌⊎◌, inl, inr, refl, ap, if◌then◌else◌, Bool, true, false, not, ◌&&◌, Option, none,
  some, Bytes, codes, equal, equal_iff, starts_with, Outcome, ok, fail, fault, ◌>>=◌,
}
use selfdb.Loader.Db.{DbFile, db_open}
use selfdb.Loader.Image.{Allocator, Image, build_elf}
use selfdb.Loader.Image.Memfd.{
  Kernel, IsWrite, materialize_memfd, materialize_image, materialize-all_or_nothing, image_bytes,
}
use selfdb.Loader.Audit.{
  Hit, plain, memfd, Objects, memfd_hit, has_slash, la_ser_orig, hit_of, resolve, la_objsearch,
}

-- The guard of `la_objsearch`: what `P` says of the hit holds of the result, or the name passes.
guarded {ℓ κ} :
    {A : Type ℓ} (P : A → Type κ) (orig proc slash : Bool) (hit name : A)
    → P hit
    → ((if orig && (not proc && not slash) then hit else name) ≡ name)
      ⊎ ((orig ≡ true)
          × (slash ≡ false)
          × P (if orig && (not proc && not slash) then hit else name))
guarded P false proc slash hit name h = inl refl
guarded P true true slash hit name h = inl refl
guarded P true false true hit name h = inl refl
guarded P true false false hit name h = inr (refl, refl, h)

module _ (a : Allocator) (k : Kernel) (files : Bytes → Option DbFile) (takes : IsWrite k)
    (safe : (path : Bytes)
      → ((img : Image) × ((db_open (files path) >>= build_elf a) ≡ ok img))
        ⊎ ((db_open (files path) >>= build_elf a) ≡ fail)) where
  -- No hit; or the path of a plain object; or a memfd with the whole image of a stored one.
  abbrev pub Allowed : Option (Option Bytes × Option Bytes) → Option (Outcome (Option Hit)) → Type 0
  Allowed row o =
      (o ≡ some (ok none))
      ⊎ (((path : Bytes) × (row ≡ some (some path, some (codes "elf")))
            × (o ≡ some (ok (some (plain path)))))
          ⊎ ((path : Bytes) × (img : Image) × (row ≡ some (some path, some (codes "self")))
              × ((db_open (files path) >>= build_elf a) ≡ ok img)
              × (o ≡ some (ok (some (memfd (image_bytes img)))))))

  materialize_memfd-fail :
      (path : Bytes)
      → (db_open (files path) >>= build_elf a) ≡ fail
      → materialize_memfd a k (files path) ≡ some fail
  unfolding materialize_memfd
  materialize_memfd-fail path f =
      ap
        (λ o. elim o as (λ x. Option (Outcome Bytes)) [
          | ok img ↦ materialize_image k img
          | fail ↦ some fail
          | fault ↦ some fault
        ])
        f

  memfd_hit-Allowed :
      (path kind : Bytes)
      → kind ≡ codes "self"
      → Allowed (some (some path, some kind)) (memfd_hit (materialize_memfd a k (files path)))
  unfolding memfd_hit
  memfd_hit-Allowed path kind self = elim (safe path) [
    | inl (img, e) ↦ elim (materialize-all_or_nothing k takes a (files path) img e) [
      | inl whole ↦
          inr (inr (path, img, ap (λ z. some (some path, some z)) self, e, ap memfd_hit whole))
      | inr failed ↦ inl (ap memfd_hit failed)
    ]
    | inr f ↦ inl (ap memfd_hit (materialize_memfd-fail path f))
  ]

  by_kind :
      (path kind : Bytes) (is_self is_elf : Bool)
      → equal kind (codes "self") ≡ is_self
      → equal kind (codes "elf") ≡ is_elf
      → Allowed (some (some path, some kind)) (
          if is_self
          then memfd_hit (materialize_memfd a k (files path))
          else if is_elf
          then some (ok (some (plain path)))
          else some (ok none))
  by_kind path kind true is_elf s e =
      let (same, back) = equal_iff kind (codes "self") in memfd_hit-Allowed path kind (same s)
  by_kind path kind false true s e =
      let (same, back) = equal_iff kind (codes "elf") in
      inr (inl (path, ap (λ z. some (some path, some z)) (same e), refl))
  by_kind path kind false false s e = inl refl

  hit_of-Allowed : (row : Option (Option Bytes × Option Bytes)) → Allowed row (hit_of a k files row)
  unfolding hit_of
  hit_of-Allowed none = inl refl
  hit_of-Allowed (some (none, kind)) = inl refl
  hit_of-Allowed (some (some path, none)) = inl refl
  hit_of-Allowed (some (some path, some kind)) =
      by_kind path kind (equal kind (codes "self")) (equal kind (codes "elf")) refl refl

  -- The answer to a search is the name itself; or, for a name without a slash at the first search,
  -- what its row of `objects` allows: for kind `elf` the path, for kind `self` a memfd with the whole
  -- image of its database. Conditions: a `write` that succeeds takes at least one byte and no more
  -- than it is given, and building an image ends with the image or by the error exit.
  pub la_objsearch-Allowed :
      (objects : Objects) (name : Bytes) (flag : ℕ)
      → (la_objsearch a k files (some objects) name flag ≡ some (ok none))
        ⊎ (((flag == la_ser_orig) ≡ true)
            × (has_slash name ≡ false)
            × Allowed (objects name) (la_objsearch a k files (some objects) name flag))
  unfolding la_objsearch resolve
  la_objsearch-Allowed objects name flag =
      guarded (Allowed (objects name)) (flag == la_ser_orig)
        (starts_with name (codes "/proc/self/fd/")) (has_slash name)
        (hit_of a k files (objects name)) _ (hit_of-Allowed (objects name))
