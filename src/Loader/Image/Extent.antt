-- ===== src/Loader/Image/Extent.antt =====
-- How large `self_build_elf` makes the image, and when its two loops stay inside their blocks.
use Prim.Native.Nat.{max}
use selfdb.Base.{
  ℕ, ◌+◌, ◌*◌, ◌^◌, ◌≤◌, ◌<◌, ◌≡◌, ap, ◌∙◌, true, List, [], ◌∷◌, length, All, arith, ok, Bytes,
}
use selfdb.Base.Word.{word}
use selfdb.Base.Memory.{Memory, store}
use selfdb.Loader.Db.{Segment}
use selfdb.Loader.Image.{
  Allocator, Header, ehdr_size, phdr_size, grow, header_extent, row_count, has_content, read_rows,
  write_at,
}

-- The end of the last segment's bytes in the file.
abbrev pub extent : List Segment → ℕ
extent [] = 0
extent (s ∷ rest) = max (s.offset + s.filesz) (extent rest)

-- A row whose bytes end inside the address space, and whose blob is no longer than `filesz`.
abbrev pub FitsRow : Segment → Type 0
FitsRow s = (s.offset + s.filesz < 2 ^ 64) × (length s.content ≤ s.filesz)

-- Every allocation that is asked for succeeds.
pub record Grants (a : Allocator) : Type 0 where
  pub calloc : (n size : ℕ) → a.calloc n size ≡ true
  pub malloc : (n : ℕ) → a.malloc n ≡ true

-- Rows that `self_build_elf` can place: as many as there are program headers at most, in a table
-- that ends inside the address space.
pub record Fits (h : Header) (rows : List Segment) : Type 0 where
  pub count : length rows ≤ h.phnum
  pub table : h.phoff + h.phnum * phdr_size < 2 ^ 64
  pub each : All FitsRow rows

-- The size that the code arrives at, written down without its loop.
abbrev pub image_size : Header → List Segment → ℕ
image_size h rows = max (max ehdr_size (h.phoff + h.phnum * phdr_size)) (extent rows)

pub grow-max : (size end : ℕ) → grow size end ≡ max size end
unfolding grow
grow-max size end = ground arith

pub header_extent-max :
    (h : Header)
    → h.phoff + h.phnum * phdr_size < 2 ^ 64
    → header_extent h ≡ max ehdr_size (h.phoff + h.phnum * phdr_size)
unfolding header_extent
header_extent-max h t = omega (arith, grow-max ehdr_size (word (h.phoff + h.phnum * phdr_size)))

pub row_count-ge : (h : Header) → h.phnum ≤ row_count h
unfolding row_count
row_count-ge h = ground arith

module _ (a : Allocator) (g : Grants a) (cap : ℕ) where
  read_rows-step :
      (n size : ℕ) (s : Segment) (rest : List Segment)
      → n < cap
      → read_rows a cap n size (s ∷ rest)
        ≡ read_rows a cap (n + 1) (grow size (word (s.offset + s.filesz))) rest
  unfolding read_rows has_content
  read_rows-step n size s rest h = ground (arith, g.calloc cap 88, g.malloc (length s.content))

  pub read_rows-extent :
      (rows : List Segment) (n size : ℕ)
      → n + length rows ≤ cap
      → All FitsRow rows
      → read_rows a cap n size rows ≡ ok (max size (extent rows))
  read_rows-extent [] n size h f = unfold read_rows in ap ok (omega arith)
  read_rows-extent (s ∷ rest) n size h f =
      read_rows-step n size s rest (omega arith)
      ∙ read_rows-extent rest (n + 1) _ (omega arith) f.1
      ∙ ap ok (omega (arith, grow-max size (word (s.offset + s.filesz)), f.0))

pub write_at-ok :
    (size p : ℕ) (bs : Bytes) (m : Memory)
    → p + length bs ≤ size
    → write_at size p bs m ≡ ok (store p bs m)
unfolding write_at
write_at-ok size p bs m h = ground arith
