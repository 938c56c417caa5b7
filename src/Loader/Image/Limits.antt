-- ===== src/Loader/Image/Limits.antt =====
-- Where `self_build_elf` stops: a missing key, and rows that it cannot place.
use Prim.Native.Nat.{max}
use selfdb.Base.{
  ℕ, ◌+◌, ◌≤◌, ◌<◌, ◌≡◌, List, [], ◌∷◌, length, arith, ok, fail, fault, String, none, >>=-step,
}
use selfdb.Base.Word.{word}
use selfdb.Loader.Db.{Db, Segment, get_int}
use selfdb.Loader.Image.{
  Allocator, Header, grow, header_extent, row_count, has_content, read_rows, read_header,
  query_segments, build_image, build_elf,
}
use selfdb.Loader.Image.Extent.{Grants}

-- A key that `self_build_elf` asks for.
pub data Key : Type 0 where
  et em entry phoff eflags phnum osabi : Key

abbrev pub key_name : Key → String
key_name et = "et"
key_name em = "em"
key_name entry = "entry"
key_name phoff = "phoff"
key_name eflags = "eflags"
key_name phnum = "phnum"
key_name osabi = "osabi"

read_header_fail : (db : Db) (k : Key) → db.meta_int (key_name k) ≡ none → read_header db ≡ fail
unfolding read_header get_int
read_header_fail db et h = ground arith
read_header_fail db _ h = ground arith

-- The image is refused (NULL) where any of the seven keys has no row in `self_meta`, whatever else
-- the database holds.
pub build_elf-missing_key :
    (a : Allocator) (db : Db) (k : Key) → db.meta_int (key_name k) ≡ none → build_elf a db ≡ fail
unfolding build_elf
build_elf-missing_key a db k h = rw (read_header_fail db k h)

module _ (a : Allocator) (g : Grants a) (cap : ℕ) where
  read_rows-overflow :
      (rows : List Segment) (n size : ℕ)
      → n ≤ cap
      → cap < n + length rows
      → read_rows a cap n size rows ≡ fault
  unfolding read_rows has_content
  read_rows-overflow [] n size l h = absurd (omega arith)
  read_rows-overflow (s ∷ rest) n size l h = ground (
    arith,
    g.calloc cap 88,
    g.malloc (length s.content),
    read_rows-overflow rest (n + 1) (grow size (word (s.offset + s.filesz))),
  )

-- With more segment rows than `phnum` (than one, if `phnum` is 0) the loop writes past the end of
-- `rows`. Conditions: the keys are there, the segments can be read, and the allocations succeed.
pub build_elf-row_overflow :
    (a : Allocator) (db : Db) (h : Header) (rows : List Segment)
    → Grants a
    → read_header db ≡ ok h
    → query_segments db ≡ ok rows
    → max h.phnum 1 < length rows
    → build_elf a db ≡ fault
unfolding build_elf build_image row_count
build_elf-row_overflow a db h rows g eh er l = >>=-step _ eh (
    >>=-step _ er (
      rw (
        read_rows-overflow a g (row_count h) rows 0 (header_extent h) (omega arith)
          (ground arith))))
