-- ===== src/Loader/Native/Program.antt =====
-- `map_program` as a whole: what it returns, and that a PIE program stays inside its hole.
use selfdb.Base.{
  ℕ, ◌+◌, ◌-◌, ◌%◌, ◌^◌, ◌≤◌, ◌<◌, ◌==◌, ◌≡◌, refl, ap, sym, ◌∙◌, ◌⊎◌, inl, inr, List, [], ◌∷◌,
  some, All, Outcome, ok, >>=-step, arith, String,
}
use selfdb.Base.Word.{word}
use selfdb.Base.Memory.{clear-outside}
use selfdb.Loader.Db.{Db, Segment, meta_int, get_int}
use selfdb.Loader.Space.{page, Space, Kernel, reserve_span, map_pages, align_up, align_down}
use selfdb.Loader.Space.Place.{Grants, align_down-page_lo, align_up-page_hi}
use selfdb.Loader.Native.{Object, Bounds, query_load, bounds, map_program, et_dyn}
use selfdb.Loader.Native.Span.{NoWrap, InSpan, bounds-InSpan}
use selfdb.Loader.Native.Loaded.{
  first_page, last_page, FitsRow, PagesApart, Elsewhere, Same, PhdrFrom, Mapped, map_rows-Mapped,
}

pub meta_int-ok :
    (db : Db) (key : String) (v : ℕ) → db.meta_int key ≡ some v → meta_int db key ≡ ok v
unfolding meta_int get_int
meta_int-ok db key v h = ground arith

-- The integers that `map_program` takes from `self_meta`.
pub record HasKeys (db : Db) (et entry phoff phnum phent : ℕ) : Type 0 where
  pub has_et : db.meta_int "et" ≡ some et
  pub has_entry : db.meta_int "entry" ≡ some entry
  pub has_phoff : db.meta_int "phoff" ≡ some phoff
  pub has_phnum : db.meta_int "phnum" ≡ some phnum
  pub has_phent : db.meta_int "phentsize" ≡ some phent

-- With its keys there, a hole found, and load segments that fit and have no page in common,
-- `map_program` succeeds: each load segment has its bytes, zeros behind them up to `memsz`, and its
-- own protection; all else is as after the reservation; the entry point is moved by the bias, and
-- the program headers are where the last segment that holds `phoff` puts them (0 if none does).
-- The kernel is taken to refuse no mapping at a fixed address.
pub map_program-Mapped :
    (k : Kernel) (db : Db) (s s1 : Space) (et entry phoff phnum phent bias : ℕ)
    → Grants k
    → HasKeys db et entry phoff phnum phent
    → reserve_span k (bounds (query_load db)).min_v (bounds (query_load db)).max_v (et == et_dyn) s
      ≡ ok (bias, s1)
    → All (FitsRow bias) (query_load db)
    → PagesApart bias (query_load db)
    → (phdr : ℕ) × (s' : Space) × (map_program k db s
        ≡ ok (
          record {
            load_bias = bias;
            entry = word (bias + entry);
            phdr = phdr;
            phnum = phnum;
            phent = phent;
          },
          s',
        ))
      × Mapped bias (query_load db) s1 s'
      × PhdrFrom bias phoff 0 (query_load db) phdr
unfolding map_program
map_program-Mapped k db s s1 et entry phoff phnum phent bias g keys r f p =
    let (phdr, s', e, m, at) = map_rows-Mapped bias k g phoff (query_load db) 0 s1 f p in
    (
      phdr,
      s',
      >>=-step _ (meta_int-ok db "et" et keys.has_et) (
          >>=-step _ (meta_int-ok db "entry" entry keys.has_entry) (
            >>=-step _ (meta_int-ok db "phoff" phoff keys.has_phoff) (
              >>=-step _ r (
                >>=-step _ e (
                  >>=-step _ (meta_int-ok db "phnum" phnum keys.has_phnum)
                    (>>=-step _ (meta_int-ok db "phentsize" phent keys.has_phent) refl)))))),
      m,
      at,
    )

-- The size of the hole that `reserve_span` asks for.
abbrev pub hole : Bounds → ℕ
hole b = word (align_up b.max_v + 2 ^ 64 - align_down b.min_v)

-- What the kernel gives: a hole that starts on a page and ends below the top.
pub record IsHole (base n : ℕ) : Type 0 where
  pub on_page : base % page ≡ 0
  pub below : base + n + (page - 1) < 2 ^ 64

abbrev pub bias_of : ℕ → Bounds → ℕ
bias_of base b = word (base + 2 ^ 64 - align_down b.min_v)

module _ (base : ℕ) (b : Bounds) (h : IsHole base (hole b))
    (top : b.max_v + (page - 1) < 2 ^ 64) where
  hole-inside :
      (g : Segment)
      → InSpan b g
      → (base ≤ first_page (bias_of base b) g) × (last_page (bias_of base b) g ≤ base + hole b)
  hole-inside g i =
      omega (arith, h.on_page, h.below, align_down-page_lo b.min_v, align_up-page_hi b.max_v top)

  pub All-Elsewhere :
      (rows : List Segment) (a : ℕ)
      → All (InSpan b) rows
      → (a < base) ⊎ (base + hole b ≤ a)
      → All (Elsewhere (bias_of base b) a) rows
  All-Elsewhere [] a i o = tt
  All-Elsewhere (g ∷ rest) a i o = (
    elim o [
      | inl l ↦ inl (omega (arith, hole-inside g i.0))
      | inr u ↦ inr (omega (arith, hole-inside g i.0))
    ],
    All-Elsewhere rest a i.1 o,
  )

pub ok_space :
    {o o' : Object} {s s' : Space}
    → ◌≡◌ {A = Outcome (Object × Space)} (ok (o, s)) (ok (o', s'))
    → s ≡ s'
ok_space e = ground arith

pub reserve_span-pie :
    (k : Kernel) (b : Bounds) (s : Space) (base et : ℕ)
    → et ≡ et_dyn
    → k.reserve s (hole b) ≡ some base
    → reserve_span k b.min_v b.max_v (et == et_dyn) s
      ≡ ok (bias_of base b, map_pages base (hole b) 0 s)
unfolding reserve_span
reserve_span-pie k b s base et e r = rw (e, r)

pub map_pages-Same :
    (base n v : ℕ) (s : Space) (a : ℕ)
    → (a < base) ⊎ (base + n ≤ a)
    → Same s (map_pages base n v s) a
unfolding map_pages
map_pages-Same base n v s a o = (clear-outside base n s.byte a o, ground arith)

-- Mapping a PIE program changes no byte and no protection outside the hole that the kernel gave for
-- it. Conditions: the hole starts on a page and ends below the top of the address space, the
-- segments do not wrap round it, fit and have no page in common, and the kernel grants the
-- mappings inside.
pub map_program-confined :
    (k : Kernel) (db : Db) (s s' : Space) (o : Object) (et entry phoff phnum phent base : ℕ)
    → Grants k
    → HasKeys db et entry phoff phnum phent
    → et ≡ et_dyn
    → k.reserve s (hole (bounds (query_load db))) ≡ some base
    → IsHole base (hole (bounds (query_load db)))
    → (bounds (query_load db)).max_v + (page - 1) < 2 ^ 64
    → All NoWrap (query_load db)
    → All (FitsRow (bias_of base (bounds (query_load db)))) (query_load db)
    → PagesApart (bias_of base (bounds (query_load db))) (query_load db)
    → map_program k db s ≡ ok (o, s')
    → (a : ℕ) → (a < base) ⊎ (base + hole (bounds (query_load db)) ≤ a)
    → Same s s' a
map_program-confined k db s s' o et entry phoff phnum phent base g keys e r h top nw f p done a
      out =
    let b = bounds (query_load db) in
    let (phdr, s2, run, m, at) =
      map_program-Mapped k db s (map_pages base (hole b) 0 s) et entry phoff phnum phent
        (bias_of base b) g keys (reserve_span-pie k b s base et e r) f p in
    let kept =
      m.elsewhere a
        (All-Elsewhere base b h top (query_load db) a (bounds-InSpan (query_load db) nw) out) in
    let fresh = map_pages-Same base (hole b) 0 s a out in
    let same : s2 ≡ s' = ok_space (sym run ∙ done) in
    (
      ap (λ (x : Space). x.byte a) (sym same) ∙ kept.0 ∙ fresh.0,
      ap (λ (x : Space). x.prot a) (sym same) ∙ kept.1 ∙ fresh.1,
    )
