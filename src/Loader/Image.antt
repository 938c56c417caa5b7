-- ===== src/Loader/Image.antt =====
-- loader/image.c, `self_build_elf`: the ELF image of a program from its rows.
pub mod Extent
pub mod Fragments
pub mod Total
pub mod Decoded
pub mod Headers
pub mod Limits
pub mod Memfd
use selfdb.Base.{
  ℕ, ◌+◌, ◌*◌, ◌==◌, ltb, leb, if◌then◌else◌, bit_or, Bool, true, not, ◌&&◌, List, [], ◌∷◌, ◌++◌,
  none, some, Bytes, length, Outcome, ok, fail, ◌>>=◌, ◌>>◌, require, defined,
}
use selfdb.Base.Word.{word, le_bytes}
use selfdb.Base.Memory.{Memory, store}
use selfdb.Loader.Db.{Db, Segment, get_int}

abbrev pub ehdr_size : ℕ
ehdr_size = 64

abbrev pub phdr_size : ℕ
phdr_size = 56

-- Whether the C library grants `calloc(n, size)` and `malloc(n)`.
pub record Allocator : Type 0 where
  pub calloc : ℕ → ℕ → Bool
  pub malloc : ℕ → Bool

-- `sizeof *rows`: nine int64, a pointer and an int, padded to eight bytes.
abbrev pub row_size : ℕ
row_size = 88

-- What `self_meta` gives the ELF header.
pub record Header : Type 0 where
  pub et : ℕ
  pub em : ℕ
  pub entry : ℕ
  pub phoff : ℕ
  pub eflags : ℕ
  pub phnum : ℕ
  pub osabi : ℕ

-- `img` and its `*out_len`.
pub record Image : Type 0 where
  pub size : ℕ
  pub at : Memory

-- All seven keys are read before `ok` is tested.
unfoldable pub read_header : Db → Outcome Header
read_header db =
    let (et, f1) = get_int db "et" in
    let (em, f2) = get_int db "em" in
    let (entry, f3) = get_int db "entry" in
    let (phoff, f4) = get_int db "phoff" in
    let (eflags, f5) = get_int db "eflags" in
    let (phnum, f6) = get_int db "phnum" in
    let (osabi, f7) = get_int db "osabi" in
    if f1 && f2 && f3 && f4 && f5 && f6 && f7
    then ok (record {
      et = et;
      em = em;
      entry = entry;
      phoff = phoff;
      eflags = eflags;
      phnum = phnum;
      osabi = osabi;
    })
    else fail

-- `if (end > size) size = end;`
unfoldable pub grow : ℕ → ℕ → ℕ
grow size end = if ltb size end then end else size

unfoldable pub header_extent : Header → ℕ
header_extent h = grow ehdr_size (word (h.phoff + h.phnum * phdr_size))

-- `phnum ? phnum : 1`
unfoldable pub row_count : Header → ℕ
row_count h = if h.phnum == 0 then 1 else h.phnum

-- `blob && R->clen`
unfoldable pub has_content : Bytes → Bool
has_content bs = not (length bs == 0)

-- The first loop: row `n` goes to `rows[n]` of `cap` rows, its blob to a block of its own. The
-- results of calloc and malloc are used unchecked. The value is the image's size.
unfoldable pub read_rows : Allocator → ℕ → ℕ → ℕ → List Segment → Outcome ℕ
read_rows a cap n size [] = ok size
read_rows a cap n size (s ∷ rest) = do
  defined (a.calloc cap row_size)
  defined (ltb n cap)
  defined (if has_content s.content then a.malloc (length s.content) else true)
  read_rows a cap (n + 1) (grow size (word (s.offset + s.filesz))) rest

-- A write of `bs` at `img + p`, in an image of `size` bytes.
unfoldable pub write_at : ℕ → ℕ → Bytes → Memory → Outcome Memory
write_at size p bs m = do defined (leb (p + length bs) size); ok (store p bs m)

abbrev pub ident : Bytes
ident = 0x7f ∷ b'E' ∷ b'L' ∷ b'F' ∷ 2 ∷ 1 ∷ 1 ∷ 0 ∷ []

-- The fields of `*eh` up to `phoff`, and from `flags` to `phnum`; the others stay zero.
abbrev pub head_fields : Header → Bytes
head_fields h =
    le_bytes 2 h.et
    ++ (le_bytes 2 h.em ++ (le_bytes 4 1 ++ (le_bytes 8 h.entry ++ le_bytes 8 h.phoff)))

abbrev pub tail_fields : Header → Bytes
tail_fields h =
    le_bytes 4 h.eflags ++ (le_bytes 2 ehdr_size ++ (le_bytes 2 phdr_size ++ le_bytes 2 h.phnum))

unfoldable pub write_header : ℕ → Header → Memory → Outcome Memory
write_header size h m = do
  m1 ← write_at size 0 ident m
  m2 ← write_at size 7 (le_bytes 1 h.osabi) m1
  m3 ← write_at size 16 (head_fields h) m2
  write_at size 48 (tail_fields h) m3

-- `(R->r ? 4 : 0) | (R->w ? 2 : 0) | (R->x ? 1 : 0)`
unfoldable pub phdr_flags : Segment → ℕ
phdr_flags s =
    bit_or (bit_or (if s.r == 0 then 0 else 4) (if s.w == 0 then 0 else 2))
      (if s.x == 0 then 0 else 1)

-- `*ph`, all its 56 bytes.
unfoldable pub phdr_bytes : Segment → Bytes
phdr_bytes s =
    le_bytes 4 s.ptype
    ++ (le_bytes 4 (phdr_flags s)
        ++ (le_bytes 8 s.offset
            ++ (le_bytes 8 s.vaddr
                ++ (le_bytes 8 s.vaddr
                    ++ (le_bytes 8 s.filesz ++ (le_bytes 8 s.memsz ++ le_bytes 8 s.align))))))

unfoldable pub write_content : ℕ → Segment → Memory → Outcome Memory
write_content size s m = if has_content s.content then write_at size s.offset s.content m else ok m

-- The second loop: program header `i`, then the segment's bytes.
unfoldable pub write_rows : ℕ → ℕ → ℕ → List Segment → Memory → Outcome Memory
write_rows size phoff i [] m = ok m
write_rows size phoff i (s ∷ rest) m = do
  m1 ← write_at size (phoff + i * phdr_size) (phdr_bytes s) m
  m2 ← write_content size s m1
  write_rows size phoff (i + 1) rest m2

-- `calloc` has cleared the image.
unfoldable pub blank : Memory
blank a = 0

unfoldable pub build_image : Allocator → Header → List Segment → Outcome Image
build_image a h rows = do
  size ← read_rows a (row_count h) 0 (header_extent h) rows
  require (a.calloc 1 size)
  m ← write_header size h blank
  m' ← write_rows size h.phoff 0 rows m
  ok (record { size = size; at = m' })

unfoldable pub query_segments : Db → Outcome (List Segment)
query_segments db = elim db.segments [ none ↦ fail | some rows ↦ ok rows ]

unfoldable pub build_elf : Allocator → Db → Outcome Image
build_elf a db = do h ← read_header db; rows ← query_segments db; build_image a h rows
