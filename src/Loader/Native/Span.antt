-- ===== src/Loader/Native/Span.antt =====
-- The first pass of `map_program` and `map_object`: the span of the load segments.
use mathlib.Core.List.{Perm, Permᴰ}
use mathlib.Core.Logic.{∥∥₁_elim}
use selfdb.Base.{◌+◌, ◌^◌, ◌≤◌, ◌<◌, ◌≡◌, refl, ap, ◌∙◌, List, [], ◌∷◌, All, arith}
use selfdb.Loader.Db.{Segment}
use selfdb.Loader.Native.{Bounds, widen, bounds_from, bounds}

-- A segment that ends inside the address space.
abbrev pub NoWrap : Segment → Type 0
NoWrap g = g.vaddr + g.memsz < 2 ^ 64

abbrev pub InSpan : Bounds → Segment → Type 0
InSpan b g = (b.min_v ≤ g.vaddr) × (g.vaddr + g.memsz ≤ b.max_v)

-- The bounds only move apart.
bounds_from-wider :
    (rows : List Segment) (b : Bounds)
    → ((bounds_from b rows).min_v ≤ b.min_v) × (b.max_v ≤ (bounds_from b rows).max_v)
unfolding bounds_from widen
bounds_from-wider [] b = omega arith
bounds_from-wider (g ∷ rest) b = ground (arith, bounds_from-wider rest (widen b g.vaddr g.memsz))

widen-InSpan : (b : Bounds) (g : Segment) → NoWrap g → InSpan (widen b g.vaddr g.memsz) g
unfolding widen
widen-InSpan b g h = ground arith

bounds_from-InSpan :
    (rows : List Segment) (b : Bounds) → All NoWrap rows → All (InSpan (bounds_from b rows)) rows
unfolding bounds_from
bounds_from-InSpan [] b h = tt
bounds_from-InSpan (g ∷ rest) b h = (
  omega (arith, widen-InSpan b g h.0, bounds_from-wider rest (widen b g.vaddr g.memsz)),
  bounds_from-InSpan rest (widen b g.vaddr g.memsz) h.1,
)

-- Every load segment lies between the bounds that the first pass finds. Condition: each ends below
-- 2 ^ 64.
pub bounds-InSpan : (rows : List Segment) → All NoWrap rows → All (InSpan (bounds rows)) rows
unfolding bounds
bounds-InSpan rows h = bounds_from-InSpan rows _ h

widen_comm :
    (b : Bounds) (g h : Segment)
    → widen (widen b g.vaddr g.memsz) h.vaddr h.memsz
      ≡ widen (widen b h.vaddr h.memsz) g.vaddr g.memsz
unfolding widen
widen_comm b g h = ground arith

bounds_from-Permᴰ :
    {rows rows' : List Segment} (b : Bounds)
    → Permᴰ rows rows'
    → bounds_from b rows ≡ bounds_from b rows'
unfolding bounds_from
bounds_from-Permᴰ b Permᴰ.nil = refl
bounds_from-Permᴰ b (Permᴰ.cons {a = g} {b = h} {l₁ = xs} e p) =
    ap (λ x. bounds_from (widen b x.vaddr x.memsz) xs) e
    ∙ bounds_from-Permᴰ (widen b h.vaddr h.memsz) p
bounds_from-Permᴰ b (Permᴰ.swap {a = g} {b = h} {a' = g'} {b' = h'} {l = xs} e f) =
    ap (λ x. bounds_from x xs) (widen_comm b g h)
    ∙ ap (λ x. bounds_from (widen (widen b x.vaddr x.memsz) g.vaddr g.memsz) xs) f
    ∙ ap (λ x. bounds_from (widen (widen b g'.vaddr g'.memsz) x.vaddr x.memsz) xs) e
bounds_from-Permᴰ b (Permᴰ.trans p q) = bounds_from-Permᴰ b p ∙ bounds_from-Permᴰ b q

Bounds-set : IsSet Bounds
Bounds-set = hlevel

-- The first pass has no ORDER BY: whatever order the rows come in, the bounds are the same.
pub bounds-perm : (rows rows' : List Segment) → Perm rows rows' → bounds rows ≡ bounds rows'
unfolding bounds
bounds-perm rows rows' p = ∥∥₁_elim p (Bounds-set _ _) (λ d. bounds_from-Permᴰ _ d)
