-- ===== src/Loader/Image/Memfd.antt =====
-- loader/image.c, `self_materialize_memfd`, and the same loop of `run_memfd` in loader/self-exec.c:
-- the image is written to a memfd in as many pieces as the kernel takes.
use selfdb.Base.{
  ◌⊎◌, ℕ, zero, suc, ◌+◌, ◌≤◌, ◌<◌, ◌≡◌, ap, ◌∙◌, [], ◌∷◌, ◌++◌, length, Bytes, take, drop, arith,
  if◌then◌else◌, Bool, true, false, ltb, Outcome, ok, fail, fault, ◌>>=◌, Option, none, some,
  take-append-drop, length-drop, append_assoc, append-nil, Option-cases, inl, inr,
}
use selfdb.Base.Memory.{load}
use selfdb.Loader.Db.{DbFile, db_open}
use selfdb.Loader.Image.{Allocator, Image, build_elf}

-- The kernel's side: whether it makes a memfd, and what the `n`-th `write` of `len` bytes returns,
-- `none` for a negative result.
pub record Kernel : Type 0 where
  pub memfd : Bool
  pub write : ℕ → ℕ → Option ℕ

-- What is written before the loop ends: the file's bytes, or an error; the outer `none` is a loop
-- that has not ended within the fuel.
unfoldable pub write_all : Kernel → ℕ → ℕ → Bytes → Bytes → Option (Outcome Bytes)
write_all k zero n file todo = if ltb 0 (length todo) then none else some (ok file)
write_all k (suc fuel) n file todo = elim (ltb 0 (length todo)) [
  | false ↦ some (ok file)
  | true ↦ elim (k.write n (length todo)) [
    | none ↦ some fail
    | some w ↦ write_all k fuel (n + 1) (file ++ take w todo) (drop w todo)
  ]
]

-- `write` takes at least one byte and no more than it is given, or fails.
abbrev pub IsWrite : Kernel → Type 0
IsWrite k = (n len w : ℕ) → k.write n len ≡ some w → (0 < w) × (w ≤ len)

abbrev pub image_bytes : Image → Bytes
image_bytes img = load 0 img.size img.at

-- The memfd that is returned, by what it holds; its offset is set back to 0.
unfoldable pub materialize_image : Kernel → Image → Option (Outcome Bytes)
materialize_image k img =
    if k.memfd then write_all k (length (image_bytes img)) 0 [] (image_bytes img) else some fail

unfoldable pub materialize_memfd : Allocator → Kernel → Option DbFile → Option (Outcome Bytes)
materialize_memfd a k file = elim (db_open file >>= build_elf a) [
  | ok img ↦ materialize_image k img
  | fail ↦ some fail
  | fault ↦ some fault
]

module _ (k : Kernel) (takes : IsWrite k) where
  write_all-step :
      (fuel n w : ℕ) (file todo : Bytes)
      → 0 < length todo
      → k.write n (length todo) ≡ some w
      → write_all k (suc fuel) n file todo
        ≡ write_all k fuel (n + 1) (file ++ take w todo) (drop w todo)
  unfolding write_all
  write_all-step fuel n w file todo h e = ground arith

  -- As many rounds as there are bytes are enough, and the file ends complete or not at all.
  pub write_all-total :
      (fuel n : ℕ) (file todo : Bytes)
      → length todo ≤ fuel
      → (write_all k fuel n file todo ≡ some (ok (file ++ todo)))
        ⊎ (write_all k fuel n file todo ≡ some fail)
  write_all-total zero n file [] h = inl (unfold write_all in rw append-nil)
  write_all-total zero n file (b ∷ bs) h = absurd (omega arith)
  write_all-total (suc fuel) n file [] h = inl (unfold write_all in rw append-nil)
  write_all-total (suc fuel) n file (b ∷ bs) h = elim (Option-cases (k.write n (length (b ∷ bs)))) [
    | inl e ↦ inr (unfold write_all in ground arith)
    | inr (w, e) ↦ rw (write_all-step fuel n w file (b ∷ bs) (omega arith) e) (
        rw (← regroup w) (
          write_all-total fuel (n + 1) (file ++ take w (b ∷ bs)) (drop w (b ∷ bs))
            (omega (arith, length-drop {0} w (b ∷ bs), takes n (length (b ∷ bs)) w e))))
  ]
    where
      regroup : (w : ℕ) → (file ++ take w (b ∷ bs)) ++ drop w (b ∷ bs) ≡ file ++ (b ∷ bs)
      regroup w =
          append_assoc file (take w (b ∷ bs)) (drop w (b ∷ bs))
          ∙ ap (λ t. file ++ t) (take-append-drop w (b ∷ bs))

  -- The memfd of an image holds all its bytes, or there is none.
  pub materialize_image_total :
      (img : Image)
      → (materialize_image k img ≡ some (ok (image_bytes img)))
        ⊎ (materialize_image k img ≡ some fail)
  unfolding materialize_image
  materialize_image_total img =
      ground (arith, write_all-total (length (image_bytes img)) 0 [] (image_bytes img))

  -- What `self_materialize_memfd` returns for a database whose image can be built is a memfd with
  -- exactly the image's bytes, or -1: the loop ends, and no memfd holds a part of the image.
  -- Condition: a `write` that succeeds takes at least one byte and no more than it is given.
  pub materialize-all_or_nothing :
      (a : Allocator) (file : Option DbFile) (img : Image)
      → (db_open file >>= build_elf a) ≡ ok img
      → (materialize_memfd a k file ≡ some (ok (image_bytes img)))
        ⊎ (materialize_memfd a k file ≡ some fail)
  unfolding materialize_memfd
  materialize-all_or_nothing a file img e = ground (arith, materialize_image_total img)
