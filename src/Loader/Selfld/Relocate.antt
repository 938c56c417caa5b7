-- ===== src/Loader/Selfld/Relocate.antt =====
-- `relocate`: what every slot holds when it returns, and that it returns only fully bound.
use mathlib.Core.Path.{subst}
use selfdb.Base.{
  ℕ, ◌+◌, ◌%◌, ◌^◌, ◌≤◌, ◌<◌, ◌≡◌, ◌≢◌, refl, ap, sym, ◌∙◌, ◌⊎◌, inl, inr, true, List, [], ◌∷◌,
  Option, All, ok, >>=-step, >>=-eq-ok, arith,
}
use selfdb.Base.Word.{word, le_bytes, of_le, of_le_eight, length-le_bytes}
use selfdb.Base.Memory.{Memory, store, load, load-store, load-same, store-outside}
use selfdb.Loader.Db.{column_int}
use selfdb.Loader.Space.{Space}
use selfdb.Loader.Selfld.{
  Reloc, Exports, symbol_address, all_writable, write_slot, apply_symbol, apply_reloc, relocate,
}

-- The type is a column that the code reads as an int.
abbrev pub type_of : Reloc → ℕ
type_of r = r.rtype % 2 ^ 32

-- The relocation's value in the words of the psABI, R_X86_64_RELATIVE (8), JUMP_SLOT (7), GLOB_DAT
-- (6) and 64 (1), with B the load bias, S the symbol's address
-- and A the addend.
pub data Binds (bias : ℕ) (syms : Exports) (r : Reloc) (v : ℕ) : Type 0 where
  relative : type_of r ≡ 8 → v ≡ word (bias + r.addend) → Binds bias syms r v
  jump_slot :
      type_of r ≡ 7
      → symbol_address r.name syms ≢ 0
      → v ≡ word (symbol_address r.name syms)
      → Binds bias syms r v
  glob_dat :
      type_of r ≡ 6
      → symbol_address r.name syms ≢ 0
      → v ≡ word (symbol_address r.name syms)
      → Binds bias syms r v
  absolute :
      type_of r ≡ 1
      → symbol_address r.name syms ≢ 0
      → v ≡ word (symbol_address r.name syms + r.addend)
      → Binds bias syms r v

abbrev pub slot : ℕ → Reloc → ℕ
slot bias r = word (bias + r.offset)

abbrev pub SlotsApart : ℕ → List Reloc → Type 0
SlotsApart bias [] = Unit
SlotsApart bias (r ∷ rest) =
    All (λ q. (slot bias r + 8 ≤ slot bias q) ⊎ (slot bias q + 8 ≤ slot bias r)) rest
    × SlotsApart bias rest

-- The slot may be written, and the relocation has a value. The code adds the addend for GLOB_DAT,
-- where the psABI does not: the addend is to be 0 there.
pub record CanBind (bias : ℕ) (syms : Exports) (prot : ℕ → Option ℕ) (r : Reloc) : Type 0 where
  pub value : ℕ
  pub binds : Binds bias syms r value
  pub writes : all_writable prot 8 (slot bias r) ≡ true
  pub no_addend : type_of r ≡ 6 → r.addend ≡ 0

-- What is read from the slot binds the relocation.
abbrev pub IsBound : ℕ → Exports → Memory → Reloc → Type 0
IsBound bias syms m r = Binds bias syms r (of_le (load (slot bias r) 8 m))

write_slot-ok :
    (p v : ℕ) (s : Space)
    → all_writable s.prot 8 p ≡ true
    → write_slot p v s ≡ ok (record { byte = store p (le_bytes 8 v) s.byte; prot = s.prot })
unfolding write_slot
write_slot-ok p v s h = rw h

apply_reloc-Binds :
    (bias : ℕ) (syms : Exports) (r : Reloc) (v : ℕ) (s : Space)
    → Binds bias syms r v
    → (type_of r ≡ 6 → r.addend ≡ 0)
    → all_writable s.prot 8 (slot bias r) ≡ true
    → apply_reloc bias syms r s
      ≡ ok (record { byte = store (slot bias r) (le_bytes 8 v) s.byte; prot = s.prot })
unfolding apply_reloc apply_symbol column_int
apply_reloc-Binds bias syms r v s (relative t e) z w =
    ground (arith, write_slot-ok (slot bias r) v s w)
apply_reloc-Binds bias syms r v s (jump_slot t n e) z w =
    ground (arith, write_slot-ok (slot bias r) v s w)
apply_reloc-Binds bias syms r v s (absolute t n e) z w =
    ground (arith, write_slot-ok (slot bias r) v s w)
apply_reloc-Binds bias syms r v s (glob_dat t n e) z w =
    ground (arith, write_slot-ok (slot bias r) v s w)

Binds-word : (bias : ℕ) (syms : Exports) (r : Reloc) (v : ℕ) → Binds bias syms r v → word v ≡ v
Binds-word bias syms r v (relative t e) = omega arith
Binds-word bias syms r v (jump_slot t n e) = omega arith
Binds-word bias syms r v (glob_dat t n e) = omega arith
Binds-word bias syms r v (absolute t n e) = omega arith

-- A memory whose slot still holds the stored value binds the relocation.
stored-IsBound :
    (bias : ℕ) (syms : Exports) (r : Reloc) (v : ℕ) (m m' : Memory)
    → Binds bias syms r v
    → ((a : ℕ)
        → slot bias r ≤ a
        → a < slot bias r + 8
        → m' a ≡ store (slot bias r) (le_bytes 8 v) m a)
    → IsBound bias syms m' r
stored-IsBound bias syms r v m m' b h = subst (Binds bias syms r) (sym reads) b
  where
    bytes : load (slot bias r) 8 m' ≡ le_bytes 8 v
    bytes =
        load-same (slot bias r) 8 m' (store (slot bias r) (le_bytes 8 v) m)
          (λ i k. h (slot bias r + i) (omega arith) (omega arith))
        ∙ ap (λ n. load (slot bias r) n (store (slot bias r) (le_bytes 8 v) m))
            (sym (length-le_bytes 8 v))
        ∙ load-store (slot bias r) (le_bytes 8 v) m

    reads : of_le (load (slot bias r) 8 m') ≡ v
    reads = ap of_le bytes ∙ of_le_eight v ∙ Binds-word bias syms r v b

abbrev OffSlots : ℕ → ℕ → Reloc → Type 0
OffSlots bias a r = (a < slot bias r) ⊎ (slot bias r + 8 ≤ a)

Apart-OffSlots :
    (bias a : ℕ) (r : Reloc) (rest : List Reloc)
    → All (λ q. (slot bias r + 8 ≤ slot bias q) ⊎ (slot bias q + 8 ≤ slot bias r)) rest
    → slot bias r ≤ a
    → a < slot bias r + 8
    → All (OffSlots bias a) rest
Apart-OffSlots bias a r [] h l u = tt
Apart-OffSlots bias a r (q ∷ rest) h l u = (
  elim h.0 [ inl p ↦ inl (omega arith) | inr p ↦ inr (omega arith) ],
  Apart-OffSlots bias a r rest h.1 l u,
)

-- What `relocate` leaves of an object whose relocations can all be bound.
pub record Relocated (bias : ℕ) (syms : Exports) (rows : List Reloc) (s s' : Space) : Type 0 where
  pub bound : All (IsBound bias syms s'.byte) rows
  pub elsewhere : (a : ℕ) → All (OffSlots bias a) rows → s'.byte a ≡ s.byte a
  pub prot_same : s'.prot ≡ s.prot

-- Where each relocation has a value and a slot that may be written, and no two slots overlap,
-- `relocate` succeeds; each slot then reads what the psABI prescribes: B + A (RELATIVE), S (JUMP_SLOT
-- and GLOB_DAT) or S + A (64); and no byte outside the slots and no protection has changed. Condition:
-- a GLOB_DAT relocation has the addend 0.
pub relocate-Relocated :
    (bias : ℕ) (syms : Exports) (rows : List Reloc) (s : Space)
    → All (CanBind bias syms s.prot) rows
    → SlotsApart bias rows
    → (s' : Space) × (relocate bias syms rows s ≡ ok s') × Relocated bias syms rows s s'
unfolding relocate
relocate-Relocated bias syms [] s c p =
    (s, refl, record { bound = tt; elsewhere = λ a h. refl; prot_same = refl })
relocate-Relocated bias syms (r ∷ rest) s c p =
    let v = c.0.value in
    let s1 : Space = record { byte = store (slot bias r) (le_bytes 8 v) s.byte; prot = s.prot } in
    let (s2, e, done) = relocate-Relocated bias syms rest s1 c.1 p.1 in
    (
      s2,
      >>=-step _ (apply_reloc-Binds bias syms r v s c.0.binds c.0.no_addend c.0.writes) e,
      record {
        bound = (
          stored-IsBound bias syms r v s.byte s2.byte c.0.binds
              (λ a l u. done.elsewhere a (Apart-OffSlots bias a r rest p.0 l u)),
          done.bound,
        );
        elsewhere = λ a o.
            done.elsewhere a o.1
            ∙ store-outside (slot bias r) (le_bytes 8 v) s.byte a
                (omega (arith, o.0, length-le_bytes 8 v));
        prot_same = done.prot_same;
      },
    )

-- A relocation that needs no symbol, or one whose symbol has an address.
abbrev pub IsResolved : Exports → Reloc → Type 0
IsResolved syms r =
    (type_of r ≡ 8)
    ⊎ ((type_of r ≡ 1) ⊎ ((type_of r ≡ 6) ⊎ (type_of r ≡ 7))) × (symbol_address r.name syms ≢ 0)

apply_reloc-IsResolved :
    (bias : ℕ) (syms : Exports) (r : Reloc) (s s' : Space)
    → apply_reloc bias syms r s ≡ ok s'
    → IsResolved syms r
unfolding apply_reloc apply_symbol column_int
apply_reloc-IsResolved bias syms r s s' h = ground arith

-- When `relocate` returns, every relocation was of a known type and every symbol among them had an
-- address: nothing is left unbound.
pub relocate-IsResolved :
    (bias : ℕ) (syms : Exports) (rows : List Reloc) (s s' : Space)
    → relocate bias syms rows s ≡ ok s'
    → All (IsResolved syms) rows
unfolding relocate
relocate-IsResolved bias syms [] s s' h = tt
relocate-IsResolved bias syms (r ∷ rest) s s' h =
    let (s1, e, more) = >>=-eq-ok (apply_reloc bias syms r s) (relocate bias syms rest) h in
    (apply_reloc-IsResolved bias syms r s s1 e, relocate-IsResolved bias syms rest s1 s' more)
