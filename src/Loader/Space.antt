-- ===== src/Loader/Space.antt =====
-- The address space that the loader fills: bytes, protections, and the kernel calls that change
-- them. loader/native.c, `prot_of`, `map_segment`, `reserve_span` and the page macros.
pub mod Place
use selfdb.Base.{
  ℕ, ◌+◌, ◌-◌, ◌%◌, ◌^◌, ◌==◌, leb, if◌then◌else◌, bit_or, Bool, Option, none, some, Bytes, length,
  take, Outcome, ok, fail, ◌>>=◌, ◌>>◌, require, defined,
}
use selfdb.Base.Word.{word}
use selfdb.Base.Memory.{Memory, within, store, clear}

abbrev pub page : ℕ
page = 4096

-- `x & ~(PAGE - 1)`
unfoldable pub align_down : ℕ → ℕ
align_down x = x - x % page

unfoldable pub align_up : ℕ → ℕ
align_up x = align_down (word (x + (page - 1)))

abbrev pub prot_read : ℕ
prot_read = 1

abbrev pub prot_write : ℕ
prot_write = 2

abbrev pub prot_exec : ℕ
prot_exec = 4

-- `(r ? PROT_READ : 0) | (w ? PROT_WRITE : 0) | (x ? PROT_EXEC : 0)`
unfoldable pub prot_of : ℕ → ℕ → ℕ → ℕ
prot_of r w x =
    bit_or (bit_or (if r == 0 then 0 else prot_read) (if w == 0 then 0 else prot_write))
      (if x == 0 then 0 else prot_exec)

-- What each address holds, and its protection; `none` is an address that is not mapped.
pub record Space : Type 0 where
  pub byte : Memory
  pub prot : ℕ → Option ℕ

-- The kernel: the hole that an anonymous mapping without an address gets, and whether a mapping at a
-- fixed address and a change of protection succeed; and whether the allocator gives a block.
pub record Kernel : Type 0 where
  pub reserve : Space → ℕ → Option ℕ
  pub fixed : ℕ → ℕ → Bool
  pub mprotect : ℕ → ℕ → ℕ → Bool
  pub malloc : ℕ → Bool

-- The protection of the `n` addresses from `p` on becomes `v`.
unfoldable pub protect : ℕ → ℕ → ℕ → Space → Space
protect p n v s = record { byte = s.byte; prot = λ a. if within p n a then some v else s.prot a }

-- Fresh anonymous pages: zero, under the protection `v`.
unfoldable pub map_pages : ℕ → ℕ → ℕ → Space → Space
map_pages p n v s = record {
  byte = clear p n s.byte;
  prot = λ a. if within p n a then some v else s.prot a;
}

-- `memcpy((void *)dest, src, n)` into a mapping that ends at `end`: it may read past neither the
-- source nor write past the mapping.
unfoldable pub copy_in : ℕ → ℕ → ℕ → Bytes → Space → Outcome Space
copy_in end dest n src s = do
  defined (leb n (length src))
  defined (leb (dest + n) end)
  ok (record { byte = store dest (take n src) s.byte; prot = s.prot })

-- `filesz && src`; the source is NULL where the segment has no bytes.
unfoldable pub fill : ℕ → ℕ → ℕ → Option Bytes → Space → Outcome Space
fill end dest filesz src s = elim src [
  | none ↦ ok s
  | some bs ↦ if filesz == 0 then ok s else copy_in end dest filesz bs s
]

unfoldable pub map_segment : Kernel → ℕ → ℕ → ℕ → ℕ → Option Bytes → ℕ → Space → Outcome Space
map_segment k load_bias vaddr filesz memsz src prot s = do
  let start = align_down (word (load_bias + vaddr))
  let end = align_up (word (load_bias + vaddr + memsz))
  require (k.fixed start (word (end + 2 ^ 64 - start)))
  s' ←
      fill end (word (load_bias + vaddr)) filesz src
        (map_pages start (word (end + 2 ^ 64 - start)) (bit_or prot_read prot_write) s)
  require (k.mprotect start (word (end + 2 ^ 64 - start)) prot)
  ok (protect start (word (end + 2 ^ 64 - start)) prot s')

-- The load bias, and the space with the hole in it; addresses are fixed where the program is no PIE.
unfoldable pub reserve_span : Kernel → ℕ → ℕ → Bool → Space → Outcome (ℕ × Space)
reserve_span k min_vaddr max_vaddr is_pie s =
    let lo = align_down min_vaddr in
    let hi = align_up max_vaddr in
    let n = word (hi + 2 ^ 64 - lo) in
    if is_pie
    then elim (k.reserve s n) [
      | none ↦ fail
      | some base ↦ ok (word (base + 2 ^ 64 - lo), map_pages base n 0 s)
    ]
    else ok (0, s)
