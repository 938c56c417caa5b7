-- ===== src/Loader/Native/Interp.antt =====
-- `map_interp` of loader/native.c: the interpreter's file is mapped the way the program's rows are.
use mathlib.Core.Path.{subst}
use selfdb.Base.{
  ℕ, zero, suc, take, sym, lt→ltb, Bool, ◌+◌, ◌*◌, ◌-◌, ◌^◌, bit_or, ◌>>=◌, ◌≤◌, ◌<◌, ◌==◌, ◌≡◌,
  refl, ap, ◌∙◌, ◌⊎◌, if◌then◌else◌, true, false, Bool-cases, inl, inr, List, [], ◌∷◌, some, Bytes,
  length, defined-leb, drop, All, Outcome, fault, fail, ok, >>=-step, require, arith, starts_with,
}
use Prim.Native.Nat.{bit_and}
use selfdb.Base.Word.{word}
use selfdb.Loader.Db.{Segment, column_int}
use selfdb.Loader.Image.{phdr_size}
use selfdb.Loader.Image.Headers.{Phdr, field, parse_phdr}
use selfdb.Loader.Space.{
  page, Space, align_up, align_down, prot_read, prot_write, prot_exec, Kernel, map_segment, fill,
  reserve_span, map_pages, prot_of,
}
use selfdb.Loader.Space.Place.{Grants}
use selfdb.Loader.Native.{
  Bounds, blob, bounds, bounds_from, widen, interp_bounds, map_rows, map_phdrs, map_interp,
  file_phdrs, pt_load, elf_magic, paged, row_prot, uint64_max,
}
use selfdb.Loader.Native.Span.{NoWrap, bounds-InSpan}
use selfdb.Loader.Native.Loaded.{
  copy_column-ok, source-blob, FitsRow, PagesApart, Same, IsLoaded, map_rows-Mapped,
}
use selfdb.Loader.Native.Program.{
  hole, IsHole, bias_of, All-Elsewhere, reserve_span-pie, map_pages-Same,
}

abbrev flag : ℕ → ℕ
flag n = if n == 0 then 0 else 1

-- A program header of the file as a row of `segments`.
abbrev pub segment_of : Bytes → Phdr → Segment
segment_of file h = record {
  is_load = true;
  ptype = pt_load;
  offset = h.p_offset;
  vaddr = h.p_vaddr;
  filesz = h.p_filesz;
  memsz = h.p_memsz;
  r = flag (bit_and h.p_flags 4);
  w = flag (bit_and h.p_flags 2);
  x = flag (bit_and h.p_flags 1);
  align = h.p_align;
  content = drop h.p_offset file;
}

-- The rows that the file's PT_LOAD headers make.
unfoldable pub segments_of : Bytes → List Phdr → List Segment
segments_of file [] = []
segments_of file (h ∷ rest) =
    if h.p_type == pt_load then segment_of file h ∷ segments_of file rest else segments_of file rest

interp_bounds-bounds_from :
    (file : Bytes) (hs : List Phdr) (b : Bounds)
    → interp_bounds b hs ≡ bounds_from b (segments_of file hs)
unfolding interp_bounds bounds_from segments_of
interp_bounds-bounds_from file [] b = refl
interp_bounds-bounds_from file (h ∷ rest) b = elim (Bool-cases (h.p_type == pt_load)) [
  | inl e ↦ rw e (interp_bounds-bounds_from file rest (widen b h.p_vaddr h.p_memsz))
  | inr e ↦ rw e (interp_bounds-bounds_from file rest b)
]

fill-blob :
    (end dest n : ℕ) (bs : Bytes) (s : Space)
    → n ≤ length bs
    → fill end dest n (some bs) s ≡ fill end dest n (blob bs) s
unfolding fill blob
fill-blob end dest n [] s h = ground arith
fill-blob end dest n (b ∷ bs) s h = refl

map_segment-blob :
    (k : Kernel) (bias v n m : ℕ) (bs : Bytes) (prot : ℕ) (s : Space)
    → n ≤ length bs
    → map_segment k bias v n m (some bs) prot s ≡ map_segment k bias v n m (blob bs) prot s
unfolding map_segment
map_segment-blob k bias v n m bs prot s h = rw (
    fill-blob (align_up (word (bias + v + m))) (word (bias + v)) n bs
      (map_pages (align_down (word (bias + v)))
        (word (align_up (word (bias + v + m)) + 2 ^ 64 - align_down (word (bias + v))))
        (bit_or prot_read prot_write) s)
      h)

flags_prot :
    (r w x : Bool)
    → prot_of
        (column_int (if r then 0 else 1))
        (column_int (if w then 0 else 1))
        (column_int (if x then 0 else 1))
      ≡ bit_or
          (bit_or (if r then 0 else prot_read) (if w then 0 else prot_write))
          (if x then 0 else prot_exec)
unfolding prot_of column_int
flags_prot true true true = refl
flags_prot true true false = refl
flags_prot true false true = refl
flags_prot true false false = refl
flags_prot false true true = refl
flags_prot false true false = refl
flags_prot false false true = refl
flags_prot false false false = refl

row_prot-segment_of :
    (file : Bytes) (h : Phdr)
    → prot_of (bit_and h.p_flags 4) (bit_and h.p_flags 2) (bit_and h.p_flags 1)
      ≡ row_prot (segment_of file h)
unfolding row_prot prot_of
row_prot-segment_of file h =
    sym
      (flags_prot (bit_and h.p_flags 4 == 0) (bit_and h.p_flags 2 == 0) (bit_and h.p_flags 1 == 0))

segments_of-load :
    (file : Bytes) (h : Phdr) (rest : List Phdr)
    → (h.p_type == pt_load) ≡ true
    → segments_of file (h ∷ rest) ≡ segment_of file h ∷ segments_of file rest
unfolding segments_of
segments_of-load file h rest e = rw e

segments_of-skip :
    (file : Bytes) (h : Phdr) (rest : List Phdr)
    → (h.p_type == pt_load) ≡ false
    → segments_of file (h ∷ rest) ≡ segments_of file rest
unfolding segments_of
segments_of-skip file h rest e = rw e

pub agree_step :
    (o o' : Outcome Space) (f : Space → Outcome Space) (g : Space → Outcome (ℕ × Space))
    → o ≡ o'
    → ((s : Space) → f s ≡ (g s >>= λ r. ok r.1))
    → (o >>= f) ≡ (o' >>= g >>= λ r. ok r.1)
agree_step o fault f g e h = rw e refl
agree_step o fail f g e h = rw e refl
agree_step o (ok s) f g e h = rw e (h s)

-- On rows that fit, the loop over the file's program headers ends where the loop over rows does.
map_phdrs-map_rows :
    (k : Kernel) (bias phoff : ℕ) (file : Bytes) (hs : List Phdr) (before : ℕ) (s : Space)
    → Grants k
    → All (FitsRow bias) (segments_of file hs)
    → map_phdrs k bias file hs s
      ≡ (map_rows k bias phoff (segments_of file hs) before s >>= λ r. ok r.1)
unfolding map_phdrs map_rows
map_phdrs-map_rows k bias phoff file [] before s gr f = unfold segments_of in refl
map_phdrs-map_rows k bias phoff file (h ∷ rest) before s gr f =
    elim (Bool-cases (h.p_type == pt_load)) [
      | inl e ↦
          let fits = rw (segments_of-load file h rest e) at f in
          rw
            (
              segments_of-load file h rest e,
              e,
              copy_column-ok k (drop h.p_offset file) gr,
              row_prot-segment_of file h,
            )
            (agree_step _ _ _ _
              (map_segment-blob k bias h.p_vaddr h.p_filesz h.p_memsz (drop h.p_offset file)
                (row_prot (segment_of file h)) s
                (rw (source-blob (drop h.p_offset file)) at fits.0.held))
              (λ s'. map_phdrs-map_rows k bias phoff file rest _ s' gr fits.1))
      | inr e ↦
          rw (segments_of-skip file h rest e, e)
            (map_phdrs-map_rows k bias phoff file rest before s gr
              (rw (segments_of-skip file h rest e) at f))
    ]

-- What the file's ELF header says of the program headers, and program header `i`, at the places of
-- Elf64_Ehdr and Elf64_Phdr in the file's pages.
abbrev pub e_phnum : Bytes → ℕ
e_phnum file = field 56 2 (paged file)

abbrev pub e_phoff : Bytes → ℕ
e_phoff file = field 32 8 (paged file)

abbrev pub header_at : Bytes → ℕ → Phdr
header_at file i = parse_phdr (take 56 (drop (e_phoff file + i * 56) (paged file)))

abbrev pub interp_rows : Bytes → List Segment
interp_rows file = segments_of (paged file) (file_phdrs (e_phnum file) (e_phoff file) (paged file))

-- A file that is not empty, with the magic, and with its program headers inside its pages.
pub record IsElf (file : Bytes) : Type 0 where
  pub nonempty : 0 < length file
  pub magic : starts_with (paged file) elf_magic ≡ true
  pub table : e_phoff file + e_phnum file * phdr_size ≤ align_up (length file)

abbrev pub interp_bias : Bytes → ℕ → ℕ
interp_bias file base = bias_of base (bounds (interp_rows file))

-- Each header of type PT_LOAD has its segment in memory.
abbrev pub AllLoaded : Bytes → ℕ → Space → Type 0
AllLoaded file bias s =
    (i : ℕ)
    → i < e_phnum file
    → (header_at file i).p_type ≡ 1
    → IsLoaded bias s (segment_of (paged file) (header_at file i))

-- A header of type PT_LOAD has its segment in memory.
abbrev Wanted : ℕ → Space → Bytes → Phdr → Type 0
Wanted bias s pages h = h.p_type ≡ 1 → IsLoaded bias s (segment_of pages h)

first-Wanted :
    (bias : ℕ) (s : Space) (pages : Bytes) (h : Phdr) (rest : List Phdr)
    → All (IsLoaded bias s) (segments_of pages (h ∷ rest))
    → Wanted bias s pages h
first-Wanted bias s pages h rest l t = (rw (segments_of-load pages h rest (rw t refl)) at l).0

rest-IsLoaded :
    (bias : ℕ) (s : Space) (pages : Bytes) (h : Phdr) (rest : List Phdr)
    → All (IsLoaded bias s) (segments_of pages (h ∷ rest))
    → All (IsLoaded bias s) (segments_of pages rest)
rest-IsLoaded bias s pages h rest l = elim (Bool-cases (h.p_type == pt_load)) [
  | inl e ↦ (rw (segments_of-load pages h rest e) at l).1
  | inr e ↦ rw (segments_of-skip pages h rest e) at l
]

-- The headers that the loop visits are those of the table, one after the other.
file_phdrs-Wanted :
    (bias : ℕ) (s : Space) (pages : Bytes) (n p i : ℕ)
    → All (IsLoaded bias s) (segments_of pages (file_phdrs n p pages))
    → i < n
    → Wanted bias s pages (parse_phdr (take 56 (drop (p + i * 56) pages)))
unfolding file_phdrs
file_phdrs-Wanted bias s pages zero p i l h = absurd (omega arith)
file_phdrs-Wanted bias s pages (suc n) p zero l h =
    subst (λ a. Wanted bias s pages (parse_phdr (take 56 (drop a pages)))) {x = p} {y = p + 0 * 56}
      (omega arith) (first-Wanted bias s pages _ _ l)
file_phdrs-Wanted bias s pages (suc n) p (suc i) l h =
    subst (λ a. Wanted bias s pages (parse_phdr (take 56 (drop a pages)))) {x = p + 56 + i * 56}
      {y = p + suc i * 56} (omega arith)
      (file_phdrs-Wanted bias s pages n (p + 56) i (rest-IsLoaded bias s pages _ _ l) (omega arith))

pub rows-AllLoaded :
    (file : Bytes) (bias : ℕ) (s : Space)
    → All (IsLoaded bias s) (interp_rows file)
    → AllLoaded file bias s
rows-AllLoaded file bias s l i n =
    file_phdrs-Wanted bias s (paged file) (e_phnum file) (e_phoff file) i l n

-- With the segments as the rows that the headers make.
pub map_interp-rows :
    (k : Kernel) (file : Bytes) (s : Space) (base : ℕ)
    → Grants k
    → IsElf file
    → k.reserve s (hole (bounds (interp_rows file))) ≡ some base
    → IsHole base (hole (bounds (interp_rows file)))
    → (bounds (interp_rows file)).max_v + (page - 1) < 2 ^ 64
    → All NoWrap (interp_rows file)
    → All (FitsRow (interp_bias file base)) (interp_rows file)
    → PagesApart (interp_bias file base) (interp_rows file)
    → (s' : Space) × (map_interp k (some file) s
        ≡ ok (
          record {
            load_bias = interp_bias file base;
            entry = word (interp_bias file base + field 24 8 (paged file));
            phdr = 0;
            phnum = 0;
            phent = 0;
          },
          s',
        ))
      × All (IsLoaded (interp_bias file base) s') (interp_rows file)
      × ((a : ℕ) → (a < base) ⊎ (base + hole (bounds (interp_rows file)) ≤ a) → Same s s' a)
unfolding map_interp
map_interp-rows k file s base g elf r h top nw f p =
    let pages = paged file in
    let hs = file_phdrs (e_phnum file) (e_phoff file) pages in
    let rows = interp_rows file in
    let b = bounds rows in
    let s1 = map_pages base (hole b) 0 s in
    let (phdr, s', e, m, at) = map_rows-Mapped (bias_of base b) k g 0 rows 0 s1 f p in
    let same_bounds : interp_bounds (record { min_v = uint64_max; max_v = 0 }) hs ≡ b =
      unfold bounds in interp_bounds-bounds_from pages hs _ in
    (
      s',
      >>=-step _ (ap require (lt→ltb 0 (length file) elf.nonempty)) (
          >>=-step _ (ap require elf.magic) (
            >>=-step _ (defined-leb elf.table) (
              >>=-step _
                (ap (λ x. reserve_span k x.min_v x.max_v true s) same_bounds
                  ∙ reserve_span-pie k b s base 3 refl r)
                (>>=-step _
                  (map_phdrs-map_rows k (bias_of base b) 0 pages hs 0 s1 g f ∙ >>=-step _ e refl)
                  refl)))),
      m.loaded,
      λ a out.
          let kept =
            m.elsewhere a (All-Elsewhere base b h top rows a (bounds-InSpan rows nw) out) in
          let fresh = map_pages-Same base (hole b) 0 s a out in
          (kept.0 ∙ fresh.0, kept.1 ∙ fresh.1),
    )

-- The interpreter is mapped the way a program is: where the kernel gives a hole for the span of its
-- PT_LOAD headers, `map_interp` succeeds, and for each program header of type PT_LOAD, wherever it
-- stands in the table, memory has its bytes of the file, zeros behind them up to `p_memsz`, and its
-- own protection; the entry point is the file's, moved by the bias; and outside the hole nothing
-- has changed. Conditions: an ELF file whose headers lie in the file's pages, a hole that starts on
-- a page and ends below the top, segments that do not wrap, fit in the file's pages and have no
-- page in common, and a kernel that refuses no mapping in the hole.
pub map_interp-Mapped :
    (k : Kernel) (file : Bytes) (s : Space) (base : ℕ)
    → Grants k
    → IsElf file
    → k.reserve s (hole (bounds (interp_rows file))) ≡ some base
    → IsHole base (hole (bounds (interp_rows file)))
    → (bounds (interp_rows file)).max_v + (page - 1) < 2 ^ 64
    → All NoWrap (interp_rows file)
    → All (FitsRow (interp_bias file base)) (interp_rows file)
    → PagesApart (interp_bias file base) (interp_rows file)
    → (s' : Space) × (map_interp k (some file) s
        ≡ ok (
          record {
            load_bias = interp_bias file base;
            entry = word (interp_bias file base + field 24 8 (paged file));
            phdr = 0;
            phnum = 0;
            phent = 0;
          },
          s',
        ))
      × AllLoaded file (interp_bias file base) s'
      × ((a : ℕ) → (a < base) ⊎ (base + hole (bounds (interp_rows file)) ≤ a) → Same s s' a)
map_interp-Mapped k file s base g elf r h top nw f p =
    let (s', e, loaded, kept) = map_interp-rows k file s base g elf r h top nw f p in
    (s', e, rows-AllLoaded file (interp_bias file base) s' loaded, kept)
