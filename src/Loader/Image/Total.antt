-- ===== src/Loader/Image/Total.antt =====
-- `self_build_elf` on rows that fit: no write leaves its block, and the image is painted.
use Prim.Native.Nat.{max}
use mathlib.Core.Path.{fun_ext}
use selfdb.Base.{
  ℕ, ◌+◌, ◌*◌, ◌≤◌, ◌≡◌, refl, ap, sym, ◌∙◌, List, [], ◌∷◌, length, All, arith, ok, >>=-step, ◌⊎◌,
  Bytes, inl, inr, if◌then◌else◌,
}
use selfdb.Base.Word.{le_bytes, length-le_bytes}
use selfdb.Base.Memory.{Memory, store}
use selfdb.Loader.Db.{Db, Segment}
use selfdb.Loader.Image.{
  Allocator, Header, Image, ehdr_size, phdr_size, ident, head_fields, tail_fields, phdr_bytes,
  write_at, header_extent, row_count, write_content, write_rows, write_header, blank, build_image,
  build_elf, read_header, query_segments, has_content,
}
use selfdb.Loader.Image.Extent.{
  extent, image_size, FitsRow, Grants, Fits, read_rows-extent, row_count-ge, header_extent-max,
  write_at-ok,
}
use selfdb.Loader.Image.Decoded.{IsElfOf, Describes-IsElfOf}
use selfdb.Loader.Image.Fragments.{
  Covers, paint, row_pieces, ident_fields, pieces, Describes, paint-file, store-nil, store-ident,
}

pub length-phdr_bytes : (s : Segment) → length (phdr_bytes s) ≡ 56
unfolding phdr_bytes le_bytes
length-phdr_bytes s = refl

length-head_fields : (h : Header) → length (head_fields h) ≡ 24
unfolding le_bytes
length-head_fields h = refl

length-tail_fields : (h : Header) → length (tail_fields h) ≡ 10
unfolding le_bytes
length-tail_fields h = refl

write_content-store :
    (size : ℕ) (s : Segment) (m : Memory)
    → s.offset + length s.content ≤ size
    → write_content size s m ≡ ok (store s.offset s.content m)
unfolding write_content has_content
write_content-store size s m h = go s.content h
  where
    go :
        (bs : Bytes)
        → s.offset + length bs ≤ size
        → (if has_content bs then write_at size s.offset bs m else ok m) ≡ ok (store s.offset bs m)
    go [] k = ap ok (sym (store-nil s.offset m))
    go (b ∷ bs) k = ground (arith, write_at-ok size s.offset (b ∷ bs) m k)

pub write_header-paint :
    (size : ℕ) (h : Header) (m : Memory)
    → ehdr_size ≤ size
    → write_header size h m
      ≡ ok (store 48 (tail_fields h) (store 16 (head_fields h) (store 0 (ident_fields h) m)))
unfolding write_header
write_header-paint size h m k = >>=-step _ (write_at-ok size 0 ident m (omega arith)) (
    >>=-step _
      (write_at-ok size 7 (le_bytes 1 h.osabi) _ (omega (arith, length-le_bytes 1 h.osabi)))
      (rw (store-ident h m) (
        >>=-step _ (write_at-ok size 16 (head_fields h) _ (omega (arith, length-head_fields h)))
          (write_at-ok size 48 (tail_fields h) _ (omega (arith, length-tail_fields h))))))

pub write_rows-paint :
    (size phoff : ℕ) (rows : List Segment) (i : ℕ) (m : Memory)
    → phoff + (i + length rows) * phdr_size ≤ size
    → extent rows ≤ size
    → All FitsRow rows
    → write_rows size phoff i rows m ≡ ok (paint (row_pieces phoff i rows) m)
unfolding write_rows paint
write_rows-paint size phoff [] i m t e f = refl
write_rows-paint size phoff (s ∷ rest) i m t e f =
    >>=-step _
      (write_at-ok size (phoff + i * phdr_size) (phdr_bytes s) m
        (omega (arith, length-phdr_bytes s)))
      (>>=-step _ (write_content-store size s _ (omega (arith, f.0)))
        (write_rows-paint size phoff rest (i + 1) _ (omega arith) (omega arith) f.1))

blank-at : (x : ℕ) → blank x ≡ 0
unfolding blank
blank-at x = refl

module _ (a : Allocator) (g : Grants a) where
  build_image-paint :
      (h : Header) (rows : List Segment)
      → Fits h rows
      → build_image a h rows
        ≡ ok (record { size = image_size h rows; at = paint (pieces h rows) blank })
  unfolding build_image paint
  build_image-paint h rows f =
      >>=-step _
        (read_rows-extent a g (row_count h) rows 0 (header_extent h)
            (omega (arith, row_count-ge h, f.count)) f.each
          ∙ ap (λ n. ok (max n (extent rows))) (header_extent-max h f.table))
        (rw (g.calloc 1 (image_size h rows)) (
          >>=-step _ (write_header-paint (image_size h rows) h blank (omega arith)) (
            >>=-step _
              (write_rows-paint (image_size h rows) h.phoff rows 0 _ (omega (arith, f.count))
                (omega arith) f.each)
              refl)))

  -- `self_build_elf` restores the file that the rows describe. Conditions: the seven keys of
  -- `self_meta` are there and the segments can be read; the rows fit (at most `phnum` of them, no
  -- blob longer than its `filesz`, the table and each row ending below 2 ^ 64); the allocations
  -- succeed; and the header, the program headers and the blobs are pieces of the file, which is
  -- zero where no piece reaches. And that file reads, at the offsets of Elf64_Ehdr and Elf64_Phdr, as
  -- the ELF file of the rows: `e_type`, `e_machine`, the entry point, the flags, the program header
  -- table, each program header and each segment's bytes.
  pub build_elf-restores :
      (db : Db) (h : Header) (rows : List Segment) (file : Image)
      → read_header db ≡ ok h
      → query_segments db ≡ ok rows
      → Fits h rows
      → Describes h rows file
      → (build_elf a db ≡ ok file) × IsElfOf h rows file.at
  unfolding build_elf
  build_elf-restores db h rows file eh er f d = (
    >>=-step _ eh (
        >>=-step _ er (
          build_image-paint h rows f
          ∙ ap ok (λ i. record {
            size = sym d.size i;
            at =
                fun_ext
                  (λ x. paint-file file.at (pieces h rows) blank x d.agree (right x (d.cover x))) i;
          }))),
    Describes-IsElfOf h rows file d,
  )
    where
      right :
          (x : ℕ)
          → Covers (pieces h rows) x ⊎ (file.at x ≡ 0)
          → Covers (pieces h rows) x ⊎ (blank x ≡ file.at x)
      right x (inl c) = inl c
      right x (inr z) = inr (blank-at x ∙ sym z)
