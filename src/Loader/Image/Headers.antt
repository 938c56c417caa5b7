-- ===== src/Loader/Image/Headers.antt =====
-- The program headers that `self_build_elf` writes, read back field by field at the offsets of
-- Elf64_Phdr.
use selfdb.Base.{ℕ, ◌+◌, ◌%◌, ◌^◌, ◌==◌, ◌≡◌, refl, ◌∙◌, Bytes, take, drop, arith, if◌then◌else◌}
use selfdb.Base.Word.{le_bytes, of_le, of_le_four, of_le_eight}
use selfdb.Loader.Db.{Segment}
use selfdb.Loader.Image.{phdr_flags, phdr_bytes}

-- `n` bytes at offset `p`, as an unsigned number.
abbrev pub field : ℕ → ℕ → Bytes → ℕ
field p n bs = of_le (take n (drop p bs))

-- Elf64_Phdr
pub record Phdr : Type 0 where
  pub p_type : ℕ
  pub p_flags : ℕ
  pub p_offset : ℕ
  pub p_vaddr : ℕ
  pub p_paddr : ℕ
  pub p_filesz : ℕ
  pub p_memsz : ℕ
  pub p_align : ℕ

unfoldable pub parse_phdr : Bytes → Phdr
parse_phdr bs = record {
  p_type = field 0 4 bs;
  p_flags = field 4 4 bs;
  p_offset = field 8 8 bs;
  p_vaddr = field 16 8 bs;
  p_paddr = field 24 8 bs;
  p_filesz = field 32 8 bs;
  p_memsz = field 40 8 bs;
  p_align = field 48 8 bs;
}

flags_sum :
    (s : Segment)
    → phdr_flags s % 2 ^ 32
      ≡ (if s.r == 0 then 0 else 4) + (if s.w == 0 then 0 else 2) + (if s.x == 0 then 0 else 1)
unfolding phdr_flags
flags_sum s = ground arith

fields_of :
    (s : Segment)
    → parse_phdr (phdr_bytes s) ≡ record {
      p_type = of_le (le_bytes 4 s.ptype);
      p_flags = of_le (le_bytes 4 (phdr_flags s));
      p_offset = of_le (le_bytes 8 s.offset);
      p_vaddr = of_le (le_bytes 8 s.vaddr);
      p_paddr = of_le (le_bytes 8 s.vaddr);
      p_filesz = of_le (le_bytes 8 s.filesz);
      p_memsz = of_le (le_bytes 8 s.memsz);
      p_align = of_le (le_bytes 8 s.align);
    }
unfolding parse_phdr phdr_bytes le_bytes of_le
fields_of s = refl

-- Reading a program header back at the offsets of Elf64_Phdr gives the row's columns, each cut to
-- the width of its field, with the flags that stand for r, w and x, and `p_paddr` equal to the
-- virtual address.
pub parse_phdr-phdr_bytes :
    (s : Segment)
    → parse_phdr (phdr_bytes s) ≡ record {
      p_type = s.ptype % 2 ^ 32;
      p_flags =
          (if s.r == 0 then 0 else 4) + (if s.w == 0 then 0 else 2) + (if s.x == 0 then 0 else 1);
      p_offset = s.offset % 2 ^ 64;
      p_vaddr = s.vaddr % 2 ^ 64;
      p_paddr = s.vaddr % 2 ^ 64;
      p_filesz = s.filesz % 2 ^ 64;
      p_memsz = s.memsz % 2 ^ 64;
      p_align = s.align % 2 ^ 64;
    }
parse_phdr-phdr_bytes s = fields_of s ∙ simp (of_le_four, of_le_eight, flags_sum s)
