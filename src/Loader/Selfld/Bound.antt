-- ===== src/Loader/Selfld/Bound.antt =====
-- `relocate` of loader/selfld.c on an object that `map_object` has loaded: the pages that it left
-- writable are those that the relocations need.
use selfdb.Base.{
  ℕ, ◌%◌, ◌^◌, ◌+◌, ◌-◌, ◌≤◌, ◌<◌, ◌==◌, ◌≡◌, refl, ap, ◌∙◌, ◌⊎◌, inl, inr, if◌then◌else◌, Bool,
  bit_or, true, false, List, [], ◌∷◌, some, Option, ok, All, arith, zero, suc,
}
use selfdb.Loader.Db.{Segment, column_int}
use selfdb.Loader.Space.{Space, prot_of}
use selfdb.Loader.Native.Loaded.{place, IsLoaded}
use selfdb.Loader.Space.{page, Kernel}
use selfdb.Loader.Space.Place.{Grants}
use selfdb.Loader.Native.{row_prot, query_load, bounds}
use selfdb.Loader.Native.Span.{NoWrap}
use selfdb.Loader.Native.Program.{hole, IsHole}
use selfdb.Loader.Native.Loaded.{FitsRow, PagesApart}
use selfdb.Loader.Selfld.{
  ObjectDb, Object, Process, map_object, publish, Reloc, Exports, writable, all_writable, relocate,
}
use selfdb.Loader.Selfld.Loaded.{writable_row, writable_rows, object_bias, map_object-Mapped}
use selfdb.Loader.Selfld.Relocate.{
  type_of, Binds, slot, SlotsApart, CanBind, Relocated, relocate-Relocated,
}

-- The eight bytes from `a` on are in one of the segments.
abbrev pub InRows : ℕ → List Segment → ℕ → Type 0
InRows bias [] a = ⊥
InRows bias (g ∷ rest) a =
    ((place bias g ≤ a) × (a + 8 ≤ place bias g + g.memsz)) ⊎ InRows bias rest a

-- A relocation that has a value and whose slot is in a segment.
pub record HasSlot (bias : ℕ) (syms : Exports) (rows : List Segment) (r : Reloc) : Type 0 where
  pub value : ℕ
  pub binds : Binds bias syms r value
  pub in_rows : InRows bias rows (slot bias r)
  pub no_addend : type_of r ≡ 6 → r.addend ≡ 0

write_bit :
    (no_read no_exec : Bool)
    → writable (some (bit_or (bit_or (if no_read then 0 else 1) 2) (if no_exec then 0 else 4)))
      ≡ true
unfolding writable
write_bit true true = refl
write_bit true false = refl
write_bit false true = refl
write_bit false false = refl

writable-row_prot : (g : Segment) → writable (some (row_prot (writable_row g))) ≡ true
unfolding row_prot prot_of column_int
writable-row_prot g = write_bit (g.r % 2 ^ 32 == 0) (g.x % 2 ^ 32 == 0)

all_writable-of_each :
    (prot : ℕ → Option ℕ) (n a : ℕ)
    → ((i : ℕ) → i < n → writable (prot (a + i)) ≡ true)
    → all_writable prot n a ≡ true
unfolding all_writable
all_writable-of_each prot zero a h = refl
all_writable-of_each prot (suc n) a h =
    rw
      (
        ap (λ x. writable (prot x)) {x = a} {y = a + 0} (omega arith) ∙ h 0 (omega arith),
        all_writable-of_each prot n (a + 1) (λ i k.
            ap (λ x. writable (prot x)) {x = a + 1 + i} {y = a + suc i} (omega arith)
            ∙ h (suc i) (omega arith)),
      )
      refl

IsLoaded-all_writable :
    (bias : ℕ) (g : Segment) (s : Space) (a : ℕ)
    → IsLoaded bias s (writable_row g)
    → place bias g ≤ a
    → a + 8 ≤ place bias g + g.memsz
    → all_writable s.prot 8 a ≡ true
IsLoaded-all_writable bias g s a l lo hi = all_writable-of_each s.prot 8 a (λ i k.
    ap (λ x. writable (s.prot x)) {x = a + i} {y = place bias g + (a + i - place bias g)}
      (omega arith)
    ∙ ap writable (l.protected (a + i - place bias g) (omega arith))
    ∙ writable-row_prot g)

InRows-all_writable :
    (bias : ℕ) (rows : List Segment) (s : Space) (a : ℕ)
    → All (IsLoaded bias s) (writable_rows rows)
    → InRows bias rows a
    → all_writable s.prot 8 a ≡ true
InRows-all_writable bias [] s a l h = absurd h
InRows-all_writable bias (g ∷ rest) s a l (inl h) = IsLoaded-all_writable bias g s a l.0 h.0 h.1
InRows-all_writable bias (g ∷ rest) s a l (inr h) = InRows-all_writable bias rest s a l.1 h

All-CanBind :
    (bias : ℕ) (syms : Exports) (rows : List Segment) (s : Space) (rels : List Reloc)
    → All (IsLoaded bias s) (writable_rows rows)
    → All (HasSlot bias syms rows) rels
    → All (CanBind bias syms s.prot) rels
All-CanBind bias syms rows s [] l h = tt
All-CanBind bias syms rows s (r ∷ rest) l h = (
  record {
    value = h.0.value;
    binds = h.0.binds;
    writes = InRows-all_writable bias rows s (slot bias r) l h.0.in_rows;
    no_addend = h.0.no_addend;
  },
  All-CanBind bias syms rows s rest l h.1,
)

-- On an object whose segments are in memory as `map_object` leaves them, `relocate` faults nowhere
-- and dies nowhere: it binds every relocation and changes nothing else. Conditions: each relocation
-- is of a known type, its symbol has an address, its slot lies in a load segment, whatever that
-- segment's own protection, and no two slots overlap.
pub relocate-loaded :
    (bias : ℕ) (syms : Exports) (rows : List Segment) (rels : List Reloc) (s : Space)
    → All (IsLoaded bias s) (writable_rows rows)
    → All (HasSlot bias syms rows) rels
    → SlotsApart bias rels
    → (s' : Space) × (relocate bias syms rels s ≡ ok s') × Relocated bias syms rels s s'
relocate-loaded bias syms rows rels s l h apart =
    relocate-Relocated bias syms rels s (All-CanBind bias syms rows s rels l h) apart

-- An object that is mapped and then relocated against the table with its own exports in it: each
-- slot reads the value that the psABI prescribes, and nothing else differs from what the mapping
-- left, neither a byte nor a protection. Both steps succeed. Conditions: those under which
-- `map_object` maps the object (a hole that starts on a page and ends below the top, segments that
-- do not wrap, fit and have no page in common, no mapping refused), and for each relocation a known
-- type, an address of its symbol, the addend 0 for a GLOB_DAT, and a slot in a load segment that no other slot overlaps.
pub map_object-Relocated :
    (k : Kernel) (o : ObjectDb) (p : Process) (base : ℕ)
    → Grants k
    → k.reserve p.space (hole (bounds (query_load o.db))) ≡ some base
    → IsHole base (hole (bounds (query_load o.db)))
    → (bounds (query_load o.db)).max_v + (page - 1) < 2 ^ 64
    → All NoWrap (query_load o.db)
    → All (FitsRow (object_bias o base)) (query_load o.db)
    → PagesApart (object_bias o base) (query_load o.db)
    → All
        (HasSlot
          (object_bias o base)
          (publish (object_bias o base) o.exported p.syms)
          (query_load o.db))
        o.relocations
    → SlotsApart (object_bias o base) o.relocations
    → (obj : Object) × (p' : Process) × (s' : Space) × (map_object k (some o) p ≡ ok (obj, p'))
      × (obj.load_bias ≡ object_bias o base)
      × All (IsLoaded (object_bias o base) p'.space) (writable_rows (query_load o.db))
      × (relocate obj.load_bias p'.syms o.relocations p'.space ≡ ok s')
      × Relocated (object_bias o base) p'.syms o.relocations p'.space s'
map_object-Relocated k o p base g r h top nw f apart slots slots_apart =
    let (s1, e, loaded, kept) = map_object-Mapped k o p base g r h top nw f apart in
    let (s2, e', done) =
      relocate-loaded (object_bias o base) (publish (object_bias o base) o.exported p.syms)
        (query_load o.db) o.relocations s1 loaded slots slots_apart in
    (_, _, s2, e, refl, loaded, e', done)
