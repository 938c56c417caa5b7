-- ===== src/Loader/Image/Fragments.antt =====
-- The pieces of an ELF file that the rows fix, and painting them in order on a blank image: a
-- description of `self_build_elf` with no bounds and no loop over addresses.
use mathlib.Core.Path.{fun_ext}
use native.Mathlib.Decide.{dec_le, dec_lt}
use selfdb.Base.{
  ◌∙◌, sym, ap, ℕ, zero, suc, ◌+◌, ◌-◌, ◌*◌, ◌%◌, ◌<◌, ◌≤◌, ◌≡◌, refl, ap, ◌⊎◌, inl, inr, List, [],
  ◌∷◌, Bytes, length, get_or, All, arith,
}
use selfdb.Base.Memory.{Memory, store, load, store-outside}
use selfdb.Base.Word.{le_bytes}
use selfdb.Loader.Db.{Segment}
use selfdb.Loader.Image.{Header, Image, phdr_size, ident, head_fields, tail_fields, phdr_bytes}
use selfdb.Loader.Image.Extent.{image_size}

-- Bytes, and the offset that they stand at.
abbrev pub Piece : Type 0
Piece = ℕ × Bytes

unfoldable pub paint : List Piece → Memory → Memory
paint [] m = m
paint ((p, bs) ∷ rest) m = paint rest (store p bs m)

abbrev pub row_pieces : ℕ → ℕ → List Segment → List Piece
row_pieces phoff i [] = []
row_pieces phoff i (s ∷ rest) =
    (phoff + i * phdr_size, phdr_bytes s) ∷ (s.offset, s.content) ∷ row_pieces phoff (i + 1) rest

-- `e_ident`, with the ABI byte at its place.
abbrev pub ident_fields : Header → Bytes
ident_fields h = 0x7f ∷ b'E' ∷ b'L' ∷ b'F' ∷ 2 ∷ 1 ∷ 1 ∷ (h.osabi % 256) ∷ []

abbrev pub pieces : Header → List Segment → List Piece
pieces h rows =
    (0, ident_fields h) ∷ (16, head_fields h) ∷ (48, tail_fields h) ∷ row_pieces h.phoff 0 rows

-- The file holds the piece's bytes where the piece says.
abbrev pub IsPieceOf : Memory → Piece → Type 0
IsPieceOf file (p, bs) = (i : ℕ) → i < length bs → get_or bs i 0 ≡ file (p + i)

abbrev pub Covers : List Piece → ℕ → Type 0
Covers [] x = ⊥
Covers ((p, bs) ∷ rest) x = (p ≤ x) × (x < p + length bs) ⊎ Covers rest x

-- The rows describe a file: each piece is of the file, and what no piece covers is zero.
pub record Describes (h : Header) (rows : List Segment) (file : Image) : Type 0 where
  pub size : file.size ≡ image_size h rows
  pub agree : All (IsPieceOf file.at) (pieces h rows)
  pub cover : (x : ℕ) → Covers (pieces h rows) x ⊎ (file.at x ≡ 0)

module _ (file : Memory) where
  -- A store of a piece keeps an address that is right already.
  store-keeps :
      (p : ℕ) (bs : Bytes) (m : Memory) (x : ℕ)
      → IsPieceOf file (p, bs)
      → ((p ≤ x) × (x < p + length bs)) ⊎ (m x ≡ file x)
      → store p bs m x ≡ file x
  unfolding store
  store-keeps p bs m x h (inl b) =
      ground (arith, h (x - p) (omega arith), ap file {x = p + (x - p)} {y = x} (omega arith))
  store-keeps p bs m x h (inr e) = ground (
    arith,
    λ (k : x - p < length bs). h (x - p) k,
    λ (k : p ≤ x). ap file {x = p + (x - p)} {y = x} (omega arith),
  )

  -- Painting pieces of one file in any order, over one another too, gives that file where they
  -- cover it or the ground was right.
  pub paint-file :
      (ps : List Piece) (m : Memory) (x : ℕ)
      → All (IsPieceOf file) ps
      → Covers ps x ⊎ (m x ≡ file x)
      → paint ps m x ≡ file x
  unfolding paint
  paint-file [] m x h (inl c) = absurd c
  paint-file [] m x h (inr e) = e
  paint-file ((p, bs) ∷ rest) m x h (inl (inl b)) =
      paint-file rest (store p bs m) x h.1 (inr (store-keeps p bs m x h.0 (inl b)))
  paint-file ((p, bs) ∷ rest) m x h (inl (inr c)) = paint-file rest (store p bs m) x h.1 (inl c)
  paint-file ((p, bs) ∷ rest) m x h (inr e) =
      paint-file rest (store p bs m) x h.1 (inr (store-keeps p bs m x h.0 (inr e)))

pub store-nil : (p : ℕ) (m : Memory) → store p [] m ≡ m
unfolding store
store-nil p m = fun_ext λ a. ground arith

ident-at :
    (h : Header) (m : Memory) (a : ℕ)
    → store 7 (le_bytes 1 h.osabi) (store 0 ident m) a ≡ store 0 (ident_fields h) m a
unfolding store le_bytes
ident-at h m zero = refl
ident-at h m (suc zero) = refl
ident-at h m (suc (suc zero)) = refl
ident-at h m (suc (suc (suc zero))) = refl
ident-at h m (suc (suc (suc (suc zero)))) = refl
ident-at h m (suc (suc (suc (suc (suc zero))))) = refl
ident-at h m (suc (suc (suc (suc (suc (suc zero)))))) = refl
ident-at h m (suc (suc (suc (suc (suc (suc (suc zero))))))) = refl
ident-at h m (suc (suc (suc (suc (suc (suc (suc (suc a)))))))) = ground arith

-- The ABI byte is written over the eighth byte of `ident0`.
pub store-ident :
    (h : Header) (m : Memory)
    → store 7 (le_bytes 1 h.osabi) (store 0 ident m) ≡ store 0 (ident_fields h) m
store-ident h m = fun_ext λ a. ident-at h m a

-- What no piece covers stays as it was.
pub paint-cover : (ps : List Piece) (m : Memory) (x : ℕ) → Covers ps x ⊎ (paint ps m x ≡ m x)
unfolding paint
paint-cover [] m x = inr refl
paint-cover ((p, bs) ∷ rest) m x = elim (paint-cover rest (store p bs m) x) [
  | inl c ↦ inl (inr c)
  | inr e ↦ elim (dec_le p x) [
    | yes l ↦ elim (dec_lt x (p + length bs)) [
      | yes u ↦ inl (inl (l, u))
      | no u ↦ inr (e ∙ store-outside p bs m x (inr (omega arith)))
    ]
    | no l ↦ inr (e ∙ store-outside p bs m x (inl (omega arith)))
  ]
]

get_or-load : (p n i : ℕ) (m : Memory) → i < n → get_or (load p n m) i 0 ≡ m (p + i)
unfolding load
get_or-load p zero i m h = absurd (omega arith)
get_or-load p (suc n) zero m h = ap m (omega arith)
get_or-load p (suc n) (suc i) m h = get_or-load (p + 1) n i m (omega arith) ∙ ap m (omega arith)

-- A piece that loads from the file is a piece of it.
pub load-IsPieceOf :
    (file : Memory) (p : ℕ) (bs : Bytes) → load p (length bs) file ≡ bs → IsPieceOf file (p, bs)
load-IsPieceOf file p bs e i h = ap (λ b. get_or b i 0) (sym e) ∙ get_or-load p (length bs) i file h
