-- ===== src/Loader/Image/Decoded.antt =====
-- The ELF file that `self_build_elf` makes, as a reader of ELF takes it apart: every field at its
-- offset in Elf64_Ehdr and Elf64_Phdr.
use mathlib.Core.Path.{subst}
use selfdb.Base.{
  ℕ, ◌+◌, ◌*◌, ◌%◌, ◌^◌, ◌==◌, ◌≡◌, refl, ap, sym, ◌∙◌, if◌then◌else◌, List, [], ◌∷◌, ◌++◌, Bytes,
  length, length-append, get_or-append_left, get_or-append_right, All, arith,
}
use selfdb.Base.Word.{le_bytes, of_le, of_le_two, of_le_four, of_le_eight, length-le_bytes}
use selfdb.Base.Memory.{Memory, load, load-of_get_or}
use selfdb.Loader.Db.{Segment}
use selfdb.Loader.Image.{Header, Image, phdr_bytes}
use selfdb.Loader.Image.Fragments.{IsPieceOf, Describes, row_pieces}
use selfdb.Loader.Image.Headers.{Phdr, parse_phdr, parse_phdr-phdr_bytes}

-- The number of `n` bytes at `p`.
abbrev pub number : Memory → ℕ → ℕ → ℕ
number m p n = of_le (load p n m)

-- The row's columns in an Elf64_Phdr.
abbrev pub phdr_of : Segment → Phdr
phdr_of s = record {
  p_type = s.ptype % 2 ^ 32;
  p_flags = (if s.r == 0 then 0 else 4) + (if s.w == 0 then 0 else 2) + (if s.x == 0 then 0 else 1);
  p_offset = s.offset % 2 ^ 64;
  p_vaddr = s.vaddr % 2 ^ 64;
  p_paddr = s.vaddr % 2 ^ 64;
  p_filesz = s.filesz % 2 ^ 64;
  p_memsz = s.memsz % 2 ^ 64;
  p_align = s.align % 2 ^ 64;
}

-- Program header `i` and the ones behind it, and the segments' bytes at their offsets.
abbrev pub HasRows : Memory → ℕ → ℕ → List Segment → Type 0
HasRows m phoff i [] = Unit
HasRows m phoff i (s ∷ rest) =
    (parse_phdr (load (phoff + i * 56) 56 m) ≡ phdr_of s)
    × (load s.offset (length s.content) m ≡ s.content)
    × HasRows m phoff (i + 1) rest

-- What a reader finds: the magic, a 64-bit little-endian file of version 1 under the ABI, the
-- header's numbers, the sizes of the two headers, and the rows.
pub record IsElfOf (h : Header) (rows : List Segment) (m : Memory) : Type 0 where
  pub e_ident : load 0 7 m ≡ 0x7f ∷ b'E' ∷ b'L' ∷ b'F' ∷ 2 ∷ 1 ∷ 1 ∷ []
  pub ei_osabi : m 7 ≡ h.osabi % 2 ^ 8
  pub e_type : number m 16 2 ≡ h.et % 2 ^ 16
  pub e_machine : number m 18 2 ≡ h.em % 2 ^ 16
  pub e_version : number m 20 4 ≡ 1
  pub e_entry : number m 24 8 ≡ h.entry % 2 ^ 64
  pub e_phoff : number m 32 8 ≡ h.phoff % 2 ^ 64
  pub e_flags : number m 48 4 ≡ h.eflags % 2 ^ 32
  pub e_ehsize : number m 52 2 ≡ 64
  pub e_phentsize : number m 54 2 ≡ 56
  pub e_phnum : number m 56 2 ≡ h.phnum % 2 ^ 16
  pub has_rows : HasRows m h.phoff 0 rows

IsPieceOf-split :
    (m : Memory) (p : ℕ) (xs ys : Bytes)
    → IsPieceOf m (p, xs ++ ys)
    → IsPieceOf m (p, xs) × IsPieceOf m (p + length xs, ys)
IsPieceOf-split m p xs ys h = (
  λ i k. sym (get_or-append_left xs ys i 0 k) ∙ h i (omega (arith, length-append {0} xs ys)),
  λ i k.
      sym (get_or-append_right xs ys i 0)
      ∙ h (length xs + i) (omega (arith, length-append {0} xs ys))
      ∙ ap m {x = p + (length xs + i)} {y = p + length xs + i} (omega arith),
)

load-piece : (m : Memory) (p : ℕ) (bs : Bytes) → IsPieceOf m (p, bs) → load p (length bs) m ≡ bs
load-piece m p bs h = load-of_get_or p bs m (λ i k. sym (h i k))

-- A field at `p`, and what stands behind it.
field-split :
    (m : Memory) (p n v : ℕ) (rest : Bytes)
    → IsPieceOf m (p, le_bytes n v ++ rest)
    → (number m p n ≡ of_le (le_bytes n v)) × IsPieceOf m (p + n, rest)
field-split m p n v rest h =
    let (here, behind) = IsPieceOf-split m p (le_bytes n v) rest h in
    (
      ap (λ k. of_le (load p k m)) (sym (length-le_bytes n v))
          ∙ ap of_le (load-piece m p (le_bytes n v) here),
      subst (λ k. IsPieceOf m (p + k, rest)) (length-le_bytes n v) behind,
    )

field_last :
    (m : Memory) (p n v : ℕ) → IsPieceOf m (p, le_bytes n v) → number m p n ≡ of_le (le_bytes n v)
field_last m p n v h =
    ap (λ k. of_le (load p k m)) (sym (length-le_bytes n v))
    ∙ ap of_le (load-piece m p (le_bytes n v) h)

length-phdr : (s : Segment) → length (phdr_bytes s) ≡ 56
unfolding phdr_bytes le_bytes
length-phdr s = refl

rows-HasRows :
    (m : Memory) (phoff : ℕ) (rows : List Segment) (i : ℕ)
    → All (IsPieceOf m) (row_pieces phoff i rows)
    → HasRows m phoff i rows
rows-HasRows m phoff [] i h = tt
rows-HasRows m phoff (s ∷ rest) i h = (
  ap (λ k. parse_phdr (load (phoff + i * 56) k m)) (sym (length-phdr s))
      ∙ ap parse_phdr (load-piece m (phoff + i * 56) (phdr_bytes s) h.0)
      ∙ parse_phdr-phdr_bytes s,
  load-piece m s.offset s.content h.1.0,
  rows-HasRows m phoff rest (i + 1) h.1.1,
)

-- A file that the rows describe reads as their ELF file.
pub Describes-IsElfOf :
    (h : Header) (rows : List Segment) (file : Image)
    → Describes h rows file
    → IsElfOf h rows file.at
Describes-IsElfOf h rows file d =
    let m = file.at in
    let (id, (head, (tail, body))) = d.agree in
    let (type, h1) = field-split m 16 2 h.et _ head in
    let (machine, h2) = field-split m 18 2 h.em _ h1 in
    let (version, h3) = field-split m 20 4 1 _ h2 in
    let (entry, h4) = field-split m 24 8 h.entry _ h3 in
    let phoff = field_last m 32 8 h.phoff h4 in
    let (flags, t1) = field-split m 48 4 h.eflags _ tail in
    let (ehsize, t2) = field-split m 52 2 64 _ t1 in
    let (phentsize, t3) = field-split m 54 2 56 _ t2 in
    let phnum = field_last m 56 2 h.phnum t3 in
    record {
      e_ident =
          load-piece m 0 _
            (IsPieceOf-split m 0 (0x7f ∷ b'E' ∷ b'L' ∷ b'F' ∷ 2 ∷ 1 ∷ 1 ∷ []) ((h.osabi % 256) ∷ [])
              id).0;
      ei_osabi = sym (id 7 (omega arith));
      e_type = type ∙ of_le_two h.et;
      e_machine = machine ∙ of_le_two h.em;
      e_version = version ∙ of_le_four 1;
      e_entry = entry ∙ of_le_eight h.entry;
      e_phoff = phoff ∙ of_le_eight h.phoff;
      e_flags = flags ∙ of_le_four h.eflags;
      e_ehsize = ehsize ∙ of_le_two 64;
      e_phentsize = phentsize ∙ of_le_two 56;
      e_phnum = phnum ∙ of_le_two h.phnum;
      has_rows = rows-HasRows m h.phoff rows 0 body;
    }
