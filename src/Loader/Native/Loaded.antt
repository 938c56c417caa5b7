-- ===== src/Loader/Native/Loaded.antt =====
-- What `map_program` leaves in memory: every load segment at its place.
use selfdb.Base.{
  ℕ, ◌+◌, ◌≤◌, ◌<◌, ◌-◌, ◌++◌, ap, length, ◌≡◌, refl, ◌∙◌, ◌⊎◌, inl, inr, if◌then◌else◌, true,
  false, Bool-cases, List, [], ◌∷◌, some, Bytes, get_or, All, ok, ◌>>=◌, >>=-step, arith,
}
use selfdb.Base.Word.{word}
use selfdb.Loader.Db.{Segment}
use selfdb.Loader.Space.{Space, Kernel, map_segment}
use selfdb.Loader.Space.Place.{page_lo, page_hi, Grants, Placed, FitsAt, source, map_segment-Placed}
use selfdb.Loader.Native.{copy_column, row_prot, blob, holds_phdr, phdr_address, map_rows}

pub source-blob : (bs : Bytes) → source (blob bs) ≡ bs
unfolding blob
source-blob [] = refl
source-blob (b ∷ bs) = refl

pub copy_column-ok : (k : Kernel) (bs : Bytes) → Grants k → copy_column k bs ≡ ok (blob bs)
unfolding copy_column blob
copy_column-ok k [] g = refl
copy_column-ok k (b ∷ bs) g = rw (g.malloc (length (b ∷ bs))) refl

abbrev pub Same : Space → Space → ℕ → Type 0
Same s s' a = (s'.byte a ≡ s.byte a) × (s'.prot a ≡ s.prot a)

module _ (bias : ℕ) where
  -- Where the segment's first byte goes.
  abbrev pub place : Segment → ℕ
  place g = word (bias + g.vaddr)

  abbrev pub first_page : Segment → ℕ
  first_page g = page_lo (place g)

  abbrev pub last_page : Segment → ℕ
  last_page g = page_hi (place g + g.memsz)

  abbrev pub FitsRow : Segment → Type 0
  FitsRow g = FitsAt (place g) g.filesz g.memsz (blob g.content)

  abbrev pub Apart : Segment → Segment → Type 0
  Apart g h = (last_page g ≤ first_page h) ⊎ (last_page h ≤ first_page g)

  -- No two segments have a page in common.
  abbrev pub PagesApart : List Segment → Type 0
  PagesApart [] = Unit
  PagesApart (g ∷ rest) = All (Apart g) rest × PagesApart rest

  abbrev pub Elsewhere : ℕ → Segment → Type 0
  Elsewhere a g = (a < first_page g) ⊎ (last_page g ≤ a)

  -- The segment's bytes, then zeros up to `memsz`, under the segment's protection.
  pub record IsLoaded (s : Space) (g : Segment) : Type 0 where
    pub bytes : (i : ℕ) → i < g.filesz → s.byte (place g + i) ≡ get_or g.content i 0
    pub zeros : (i : ℕ) → g.filesz ≤ i → i < g.memsz → s.byte (place g + i) ≡ 0
    pub protected : (i : ℕ) → i < g.memsz → s.prot (place g + i) ≡ some (row_prot g)

  -- Whether file offset `phoff` is among the segment's bytes.
  abbrev pub Holds : ℕ → Segment → Type 0
  Holds phoff g = (g.offset ≤ phoff) × (phoff < word (g.offset + g.filesz))

  abbrev pub HoldsNot : ℕ → Segment → Type 0
  HoldsNot phoff g = (phoff < g.offset) ⊎ (word (g.offset + g.filesz) ≤ phoff)

  -- The address of the program headers: as far behind the place of the last segment that holds
  -- `phoff` as `phoff` is behind the segment's offset, or `before` where no segment holds it.
  pub data PhdrFrom (phoff before : ℕ) (rows : List Segment) (phdr : ℕ) : Type 0 where
    nowhere : All (HoldsNot phoff) rows → phdr ≡ before → PhdrFrom phoff before rows phdr
    held :
        (front : List Segment) (g : Segment) (behind : List Segment)
        → rows ≡ front ++ g ∷ behind
        → Holds phoff g
        → All (HoldsNot phoff) behind
        → phdr ≡ word (place g + (phoff - g.offset))
        → PhdrFrom phoff before rows phdr

  holds_phdr-Holds : (phoff : ℕ) (g : Segment) → holds_phdr phoff g ≡ true → Holds phoff g
  unfolding holds_phdr
  holds_phdr-Holds phoff g h = ground arith

  holds_phdr-HoldsNot : (phoff : ℕ) (g : Segment) → holds_phdr phoff g ≡ false → HoldsNot phoff g
  unfolding holds_phdr
  holds_phdr-HoldsNot phoff g h = ground arith

  phdr_address-place :
      (phoff : ℕ) (g : Segment) → phdr_address bias phoff g ≡ word (place g + (phoff - g.offset))
  unfolding phdr_address
  phdr_address-place phoff g = omega arith

  PhdrFrom-cons :
      (phoff before : ℕ) (g : Segment) (rest : List Segment) (phdr : ℕ)
      → PhdrFrom phoff (if holds_phdr phoff g then phdr_address bias phoff g else before) rest phdr
      → PhdrFrom phoff before (g ∷ rest) phdr
  PhdrFrom-cons phoff before g rest phdr (held front x behind e h n a) =
      held (g ∷ front) x behind (ap (λ l. g ∷ l) e) h n a
  PhdrFrom-cons phoff before g rest phdr (nowhere n e) = elim (Bool-cases (holds_phdr phoff g)) [
    | inl yes_held ↦
        held [] g rest refl (holds_phdr-Holds phoff g yes_held) n
          ((rw yes_held at e) ∙ phdr_address-place phoff g)
    | inr not_held ↦ nowhere (holds_phdr-HoldsNot phoff g not_held, n) (rw not_held at e)
  ]

  Placed-IsLoaded :
      (g : Segment) (s s' : Space)
      → FitsRow g
      → Placed (first_page g) (last_page g) (place g) g.filesz g.content (row_prot g) s s'
      → IsLoaded s' g
  Placed-IsLoaded g s s' f p = record {
    bytes = p.copied;
    zeros = λ i h l. p.cleared (place g + i) (omega arith) (omega arith) (inr (omega arith));
    protected = λ i l. p.protected (place g + i) (omega arith) (omega arith);
  }

  Same-IsLoaded :
      (g : Segment) (s s' : Space)
      → FitsRow g
      → ((a : ℕ) → first_page g ≤ a → a < last_page g → Same s s' a)
      → IsLoaded s g
      → IsLoaded s' g
  Same-IsLoaded g s s' f same l = record {
    bytes = λ i h. (same (place g + i) (omega arith) (omega (arith, f.tail))).0 ∙ l.bytes i h;
    zeros = λ i h k. (same (place g + i) (omega arith) (omega arith)).0 ∙ l.zeros i h k;
    protected = λ i h. (same (place g + i) (omega arith) (omega arith)).1 ∙ l.protected i h;
  }

  Apart-Elsewhere :
      (g : Segment) (rest : List Segment) (a : ℕ)
      → All (Apart g) rest
      → first_page g ≤ a
      → a < last_page g
      → All (Elsewhere a) rest
  Apart-Elsewhere g [] a h l u = tt
  Apart-Elsewhere g (x ∷ rest) a h l u = (
    elim h.0 [ inl p ↦ inl (omega arith) | inr p ↦ inr (omega arith) ],
    Apart-Elsewhere g rest a h.1 l u,
  )

  -- What the second pass has done when it ends.
  pub record Mapped (rows : List Segment) (s s' : Space) : Type 0 where
    pub loaded : All (IsLoaded s') rows
    pub elsewhere : (a : ℕ) → All (Elsewhere a) rows → Same s s' a

  module _ (k : Kernel) (grants : Grants k) (phoff : ℕ) where
    pub map_rows-Mapped :
        (rows : List Segment) (before : ℕ) (s : Space)
        → All FitsRow rows
        → PagesApart rows
        → (phdr : ℕ) × (s' : Space) × (map_rows k bias phoff rows before s ≡ ok (phdr, s'))
          × Mapped rows s s'
          × PhdrFrom phoff before rows phdr
    unfolding map_rows
    map_rows-Mapped [] before s f p =
        (before, s, refl, record { loaded = tt; elsewhere = λ a e. (refl, refl) }, nowhere tt refl)
    map_rows-Mapped (g ∷ rest) before s f p =
        join
          (map_segment-Placed k bias g.vaddr g.filesz g.memsz (blob g.content) (row_prot g)
            (place g) s grants refl f.0)
          (map_rows-Mapped rest (if holds_phdr phoff g then phdr_address bias phoff g else before))
      where
        prot : ℕ
        prot = row_prot g

        next : ℕ
        next = if holds_phdr phoff g then phdr_address bias phoff g else before

        join :
            (s1 : Space) × (map_segment k bias g.vaddr g.filesz g.memsz (blob g.content) prot s
                ≡ ok s1)
              × Placed
                  (first_page g)
                  (last_page g)
                  (place g)
                  g.filesz
                  (source (blob g.content))
                  prot
                  s
                  s1
            → ((s1 : Space)
                → All FitsRow rest
                → PagesApart rest
                → (phdr : ℕ) × (s' : Space) × (map_rows k bias phoff rest next s1 ≡ ok (phdr, s'))
                  × Mapped rest s1 s'
                  × PhdrFrom phoff next rest phdr)
            → (phdr : ℕ) × (s' : Space) × ((copy_column k g.content >>= λ src.
                  map_segment k bias g.vaddr g.filesz g.memsz src prot s >>= λ s1.
                  map_rows k bias phoff rest next s1)
                ≡ ok (phdr, s'))
              × Mapped (g ∷ rest) s s'
              × PhdrFrom phoff before (g ∷ rest) phdr
        join (s1, e, placed) more =
            let (phdr, s', e', m, at) = more s1 f.1 p.1 in
            (
              phdr,
              s',
              >>=-step _ (copy_column-ok k g.content grants) (>>=-step _ e e'),
              record {
                loaded = (
                  Same-IsLoaded g s1 s' f.0
                      (λ a l u. m.elsewhere a (Apart-Elsewhere g rest a p.0 l u))
                      (Placed-IsLoaded g s s1 f.0 (rw (source-blob g.content) at placed)),
                  m.loaded,
                );
                elsewhere = λ a o. (
                  (m.elsewhere a o.1).0 ∙ (placed.kept a o.0).0,
                  (m.elsewhere a o.1).1 ∙ (placed.kept a o.0).1,
                );
              },
              PhdrFrom-cons phoff before g rest phdr at,
            )
