-- ===== src/Loader/Native.antt =====
-- loader/native.c: the program is mapped from its rows, its interpreter from a file, and control
-- goes to the one that starts first.
pub mod Span
pub mod Loaded
pub mod Program
pub mod Interp
pub mod Start
use Prim.Native.Nat.{bit_and}
use selfdb.Base.{
  ℕ, zero, suc, ◌+◌, ◌-◌, ◌*◌, ◌^◌, ◌==◌, ltb, leb, if◌then◌else◌, Bool, true, ◌&&◌, List, [], ◌∷◌,
  Option, none, some, Bytes, length, take, drop, Outcome, ok, fail, ◌>>=◌, ◌>>◌, require, defined,
  starts_with, ◌++◌,
}
use selfdb.Base.Word.{word}
use selfdb.Loader.Db.{Db, Segment, meta_int, column_int}
use selfdb.Loader.Image.{phdr_size}
use selfdb.Loader.Image.Headers.{Phdr, parse_phdr, field}
use selfdb.Loader.Space.{align_up, Space, Kernel, map_segment, reserve_span, prot_of}

-- One mapped object.
pub record Object : Type 0 where
  pub load_bias : ℕ
  pub entry : ℕ
  pub phdr : ℕ
  pub phnum : ℕ
  pub phent : ℕ

abbrev pub uint64_max : ℕ
uint64_max = 2 ^ 64 - 1

-- `min_v` and `max_v`.
pub record Bounds : Type 0 where
  pub min_v : ℕ
  pub max_v : ℕ

-- One round of the first pass, on a span's address and size.
unfoldable pub widen : Bounds → ℕ → ℕ → Bounds
widen b v m = record {
  min_v = if ltb v b.min_v then v else b.min_v;
  max_v = if ltb b.max_v (word (v + m)) then word (v + m) else b.max_v;
}

unfoldable pub bounds_from : Bounds → List Segment → Bounds
bounds_from b [] = b
bounds_from b (s ∷ rest) = bounds_from (widen b s.vaddr s.memsz) rest

unfoldable pub bounds : List Segment → Bounds
bounds = bounds_from (record { min_v = uint64_max; max_v = 0 })

-- `WHERE type='load'`
unfoldable pub load_rows : List Segment → List Segment
load_rows [] = []
load_rows (s ∷ rest) = let others = load_rows rest in if s.is_load then s ∷ others else others

-- The statement is stepped without a look at whether it could be prepared.
unfoldable pub query_load : Db → List Segment
query_load db = elim db.segments [ none ↦ [] | some rows ↦ load_rows rows ]

-- `buf`, the copy of a blob; NULL where there is none.
unfoldable pub blob : Bytes → Option Bytes
blob [] = none
blob (b ∷ bs) = some (b ∷ bs)

-- The copy of a blob: `memcpy` writes to what malloc returns without a look at it.
unfoldable pub copy_column : Kernel → Bytes → Outcome (Option Bytes)
copy_column k [] = ok none
copy_column k (b ∷ bs) = do defined (k.malloc (length (b ∷ bs))); ok (blob (b ∷ bs))

-- The protection of a row, whose `r`, `w` and `x` are read as ints.
unfoldable pub row_prot : Segment → ℕ
row_prot g = prot_of (column_int g.r) (column_int g.w) (column_int g.x)

-- `off <= phoff && phoff < off + filesz`
unfoldable pub holds_phdr : ℕ → Segment → Bool
holds_phdr phoff s = leb s.offset phoff && ltb phoff (word (s.offset + s.filesz))

unfoldable pub phdr_address : ℕ → ℕ → Segment → ℕ
phdr_address bias phoff s = word (bias + s.vaddr + (phoff - s.offset))

-- The second pass: each load segment is mapped, and the last one that holds `phoff` says where the
-- program headers land.
unfoldable pub map_rows : Kernel → ℕ → ℕ → List Segment → ℕ → Space → Outcome (ℕ × Space)
map_rows k bias phoff [] phdr s = ok (phdr, s)
map_rows k bias phoff (g ∷ rest) phdr s = do
  src ← copy_column k g.content
  s' ← map_segment k bias g.vaddr g.filesz g.memsz src (row_prot g) s
  map_rows k bias phoff rest (if holds_phdr phoff g then phdr_address bias phoff g else phdr) s'

abbrev pub et_dyn : ℕ
et_dyn = 3

unfoldable pub map_program : Kernel → Db → Space → Outcome (Object × Space)
map_program k db s = do
  et ← meta_int db "et"
  entry ← meta_int db "entry"
  phoff ← meta_int db "phoff"
  let rows = query_load db
  let b = bounds rows
  (bias, s1) ← reserve_span k b.min_v b.max_v (et == et_dyn) s
  (phdr, s2) ← map_rows k bias phoff rows 0 s1
  phnum ← meta_int db "phnum"
  phent ← meta_int db "phentsize"
  ok (
    record {
      load_bias = bias;
      entry = word (bias + entry);
      phdr = phdr;
      phnum = phnum;
      phent = phent;
    },
    s2,
  )

-- The program headers of the interpreter's file, `n` of them from `p` on.
unfoldable pub file_phdrs : ℕ → ℕ → Bytes → List Phdr
file_phdrs zero p file = []
file_phdrs (suc n) p file =
    parse_phdr (take phdr_size (drop p file)) ∷ file_phdrs n (p + phdr_size) file

abbrev pub pt_load : ℕ
pt_load = 1

unfoldable pub interp_bounds : Bounds → List Phdr → Bounds
interp_bounds b [] = b
interp_bounds b (h ∷ rest) =
    interp_bounds (if h.p_type == pt_load then widen b h.p_vaddr h.p_memsz else b) rest

unfoldable pub map_phdrs : Kernel → ℕ → Bytes → List Phdr → Space → Outcome Space
map_phdrs k bias file [] s = ok s
map_phdrs k bias file (h ∷ rest) s = do
  s' ←
      if h.p_type == pt_load
      then map_segment k bias h.p_vaddr h.p_filesz h.p_memsz (some (drop h.p_offset file))
          (prot_of (bit_and h.p_flags 4) (bit_and h.p_flags 2) (bit_and h.p_flags 1)) s
      else ok s
  map_phdrs k bias file rest s'

abbrev pub elf_magic : Bytes
elf_magic = 0x7f ∷ b'E' ∷ b'L' ∷ b'F' ∷ []

unfoldable pub zeros : ℕ → Bytes
zeros zero = []
zeros (suc n) = 0 ∷ zeros n

-- The pages of a mapped file: its bytes, and zeros up to the end of the last page.
unfoldable pub paged : Bytes → Bytes
paged file = file ++ zeros (align_up (length file) - length file)

-- The option is the file that the path names, as it can be opened. An empty file cannot be mapped;
-- reads stay inside the pages of the others.
unfoldable pub map_interp : Kernel → Option Bytes → Space → Outcome (Object × Space)
map_interp k none s = fail
map_interp k (some file) s = do
  require (ltb 0 (length file))
  let pages = paged file
  require (starts_with pages elf_magic)
  let phoff = field 32 8 pages
  let phnum = field 56 2 pages
  defined (leb (phoff + phnum * phdr_size) (align_up (length file)))
  let phdrs = file_phdrs phnum phoff pages
  let b = interp_bounds (record { min_v = uint64_max; max_v = 0 }) phdrs
  (bias, s1) ← reserve_span k b.min_v b.max_v true s
  s2 ← map_phdrs k bias pages phdrs s1
  ok (
    record {
      load_bias = bias;
      entry = word (bias + field 24 8 pages);
      phdr = 0;
      phnum = 0;
      phent = 0;
    },
    s2,
  )
