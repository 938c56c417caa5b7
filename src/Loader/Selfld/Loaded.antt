-- ===== src/Loader/Selfld/Loaded.antt =====
-- `map_object` of loader/selfld.c: what it leaves in memory.
use selfdb.Base.{
  ℕ, true, defined, zero, suc, defined-leb, ◌+◌, ◌-◌, ◌^◌, ◌≤◌, ◌<◌, ◌≡◌, refl, ap, ◌∙◌, ◌⊎◌,
  bit_or, List, [], ◌∷◌, some, none, Option, Bytes, length, All, ok, ◌>>=◌, >>=-step, arith,
}
use selfdb.Base.Word.{word}
use selfdb.Base.Memory.{Memory, store, store-outside}
use selfdb.Loader.Db.{Segment, column_int}
use selfdb.Loader.Space.{
  page, Space, Kernel, align_down, align_up, map_pages, map_segment, copy_in, fill, prot_read,
  prot_write,
}
use selfdb.Loader.Space.{prot_of as native_prot_of}
use selfdb.Loader.Space.Place.{Grants, source}
use selfdb.Loader.Native.{row_prot, blob, map_rows, query_load, bounds}
use selfdb.Loader.Native.Span.{NoWrap, bounds-InSpan}
use selfdb.Loader.Native.Loaded.{
  copy_column-ok, place, FitsRow, Apart, PagesApart, Same, IsLoaded, Elsewhere, map_rows-Mapped,
}
use selfdb.Loader.Native.Program.{
  hole, IsHole, bias_of, All-Elsewhere, reserve_span-pie, map_pages-Same,
}
use selfdb.Loader.Native.Interp.{agree_step}
use selfdb.Loader.Selfld.{
  publish_blocks, export_blocks, sym_size, ObjectDb, Process, copy_blob, prot_of, map_load,
  map_loads, map_object, entry_of, publish,
}

store-nil : (p : ℕ) (m : Memory) → store p [] m ≡ m
store-nil p m = λ i a. store-outside p [] m a (or_above a) i
  where
    or_above : (a : ℕ) → (a < p) ⊎ (p + 0 ≤ a)
    or_above a = ground arith

-- Where the bytes fit, copying none of them is the same as not copying.
copy_blob-fill :
    (end dest n : ℕ) (src : Option Bytes) (s : Space)
    → n ≤ length (source src)
    → dest + n ≤ end
    → copy_blob end dest n src s ≡ fill end dest n src s
unfolding copy_blob fill
copy_blob-fill end dest n none s h e = refl
copy_blob-fill end dest zero (some bs) s h e =
    unfold copy_in in
    >>=-step _ (defined-leb h) (
      >>=-step _ (defined-leb e)
        (ap (λ m. ok (record { byte = m; prot = s.prot })) (store-nil dest s.byte)))
copy_blob-fill end dest (suc n) (some bs) s h e = ground arith

-- The segment as a row whose pages are left writable.
abbrev pub writable_row : Segment → Segment
writable_row g = record g { w = 1 }

end_of :
    (bias : ℕ) (g : Segment)
    → FitsRow bias g
    → place bias g + g.memsz ≤ align_up (word (bias + g.vaddr + g.memsz))
unfolding align_up align_down
end_of bias g f = omega (arith, f.top)

map_load-map_segment :
    (k : Kernel) (bias : ℕ) (g : Segment) (s : Space)
    → Grants k
    → FitsRow bias g
    → map_load k bias g s
      ≡ map_segment k bias g.vaddr g.filesz g.memsz (blob g.content) (row_prot (writable_row g)) s
unfolding map_load map_segment prot_of native_prot_of row_prot column_int
map_load-map_segment k bias g s gr f =
    let start = align_down (word (bias + g.vaddr)) in
    let end = align_up (word (bias + g.vaddr + g.memsz)) in
    let n = word (end + 2 ^ 64 - start) in
    let fits : place bias g + g.filesz ≤ end = omega (arith, end_of bias g f, f.tail) in
    rw
      (
        copy_column-ok k g.content gr,
        gr.mprotect start n (row_prot (writable_row g)),
        copy_blob-fill end (place bias g) g.filesz (blob g.content)
            (map_pages start n (bit_or prot_read prot_write) s) f.held fits,
      )
      refl

publish_blocks-all :
    (k : Kernel) (rows : List (Option Bytes × ℕ)) → Grants k → publish_blocks k rows ≡ true
unfolding publish_blocks export_blocks
publish_blocks-all k [] g = refl
publish_blocks-all k ((none, value) ∷ rest) g = publish_blocks-all k rest g
publish_blocks-all k ((some [], value) ∷ rest) g = publish_blocks-all k rest g
publish_blocks-all k ((some (c ∷ cs), value) ∷ rest) g =
    rw (g.malloc sym_size, g.malloc (length (c ∷ cs) + 1), publish_blocks-all k rest g) refl

abbrev pub writable_rows : List Segment → List Segment
writable_rows [] = []
writable_rows (g ∷ rest) = writable_row g ∷ writable_rows rest

All-writable_rows :
    (P : Segment → Type 0) (rows : List Segment)
    → ((g : Segment) → P g → P (writable_row g))
    → All P rows
    → All P (writable_rows rows)
All-writable_rows P [] step h = tt
All-writable_rows P (g ∷ rest) step h = (step g h.0, All-writable_rows P rest step h.1)

PagesApart-writable_rows :
    (bias : ℕ) (rows : List Segment) → PagesApart bias rows → PagesApart bias (writable_rows rows)
PagesApart-writable_rows bias [] h = tt
PagesApart-writable_rows bias (g ∷ rest) h =
    (All-writable_rows (Apart bias g) rest (λ x a. a) h.0, PagesApart-writable_rows bias rest h.1)

-- On rows that fit, the loop ends where the loop of loader/native.c ends on the same rows, left
-- writable.
map_loads-map_rows :
    (k : Kernel) (bias : ℕ) (rows : List Segment) (before : ℕ) (s : Space)
    → Grants k
    → All (FitsRow bias) rows
    → map_loads k bias rows s ≡ (map_rows k bias 0 (writable_rows rows) before s >>= λ r. ok r.1)
unfolding map_loads map_rows
map_loads-map_rows k bias [] before s gr f = refl
map_loads-map_rows k bias (g ∷ rest) before s gr f = rw (copy_column-ok k g.content gr) (
    agree_step _ _ _ _ (map_load-map_segment k bias g s gr f.0)
      (λ s'. map_loads-map_rows k bias rest _ s' gr f.1))

abbrev pub object_bias : ObjectDb → ℕ → ℕ
object_bias o base = bias_of base (bounds (query_load o.db))

-- Where the kernel gives a hole for an object of the closure, `map_object` succeeds: each load
-- segment has its bytes, zeros behind them, and its protection with PROT_WRITE added; the object's
-- exports are added to the table and nothing else is; and outside the hole nothing has changed.
-- Conditions: a hole that starts on a page and ends below the top, segments that do not wrap, fit
-- and have no page in common, and a kernel that refuses no mapping in the hole.
pub map_object-Mapped :
    (k : Kernel) (o : ObjectDb) (p : Process) (base : ℕ)
    → Grants k
    → k.reserve p.space (hole (bounds (query_load o.db))) ≡ some base
    → IsHole base (hole (bounds (query_load o.db)))
    → (bounds (query_load o.db)).max_v + (page - 1) < 2 ^ 64
    → All NoWrap (query_load o.db)
    → All (FitsRow (object_bias o base)) (query_load o.db)
    → PagesApart (object_bias o base) (query_load o.db)
    → (s' : Space) × (map_object k (some o) p
        ≡ ok (
          record {
            source = o;
            load_bias = object_bias o base;
            entry = entry_of o.db (object_bias o base);
          },
          record { space = s'; syms = publish (object_bias o base) o.exported p.syms },
        ))
      × All (IsLoaded (object_bias o base) s') (writable_rows (query_load o.db))
      × ((a : ℕ) → (a < base) ⊎ (base + hole (bounds (query_load o.db)) ≤ a) → Same p.space s' a)
unfolding map_object
map_object-Mapped k o p base gr r h top nw f apart =
    let rows = query_load o.db in
    let b = bounds rows in
    let bias = bias_of base b in
    let s1 = map_pages base (hole b) 0 p.space in
    let (phdr, s', e, m, at) =
      map_rows-Mapped bias k gr 0 (writable_rows rows) 0 s1
        (All-writable_rows (FitsRow bias) rows (λ g x. x) f)
        (PagesApart-writable_rows bias rows apart) in
    (
      s',
      >>=-step _ (reserve_span-pie k b p.space base 3 refl r) (
          >>=-step _ (map_loads-map_rows k bias rows 0 s1 gr f ∙ >>=-step _ e refl)
            (>>=-step _ (ap defined (publish_blocks-all k o.exported gr)) refl)),
      m.loaded,
      λ a out.
          let kept = m.elsewhere a (
            All-writable_rows (Elsewhere bias a) rows (λ g x. x)
              (All-Elsewhere base b h top rows a (bounds-InSpan rows nw) out)) in
          let fresh = map_pages-Same base (hole b) 0 p.space a out in
          (kept.0 ∙ fresh.0, kept.1 ∙ fresh.1),
    )
