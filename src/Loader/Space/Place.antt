-- ===== src/Loader/Space/Place.antt =====
-- What `map_segment` does to the address space, address by address.
use selfdb.Base.{
  ℕ, zero, suc, ◌+◌, ◌-◌, ◌%◌, ◌^◌, ◌≤◌, ◌<◌, ◌==◌, ◌≡◌, refl, ◌⊎◌, if◌then◌else◌, bit_or, true, [],
  ◌∷◌, Option, none, some, Bytes, length, take, get_or, ok, >>=-step, arith, length-take,
}
use selfdb.Base.Word.{word}
use selfdb.Base.Memory.{store, clear, store-inside, store-outside, clear-inside, clear-outside}
use selfdb.Loader.Space.{
  page, align_down, align_up, prot_read, prot_write, Space, Kernel, protect, map_pages, copy_in,
  fill, map_segment,
}

-- The first address of the page of `x`, and the end of the pages that hold what stands below `x`.
abbrev pub page_lo : ℕ → ℕ
page_lo x = x - x % page

abbrev pub page_hi : ℕ → ℕ
page_hi x = page_lo (x + (page - 1))

-- The kernel refuses no mapping at a fixed address and no protection, and the allocator no block.
pub record Grants (k : Kernel) : Type 0 where
  pub fixed : (p n : ℕ) → k.fixed p n ≡ true
  pub mprotect : (p n v : ℕ) → k.mprotect p n v ≡ true
  pub malloc : (n : ℕ) → k.malloc n ≡ true

abbrev pub source : Option Bytes → Bytes
source none = []
source (some bs) = bs

-- `s'` is `s` with the pages from `lo` to `hi` under `prot`, zero but for the first `n` bytes of
-- `bs` at `dest`.
pub record Placed (lo hi dest n : ℕ) (bs : Bytes) (prot : ℕ) (s s' : Space) : Type 0 where
  pub copied : (i : ℕ) → i < n → s'.byte (dest + i) ≡ get_or bs i 0
  pub cleared : (a : ℕ) → lo ≤ a → a < hi → (a < dest) ⊎ (dest + n ≤ a) → s'.byte a ≡ 0
  pub kept : (a : ℕ) → (a < lo) ⊎ (hi ≤ a) → (s'.byte a ≡ s.byte a) × (s'.prot a ≡ s.prot a)
  pub protected : (a : ℕ) → lo ≤ a → a < hi → s'.prot a ≡ some prot

get_or-take : (n i : ℕ) (bs : Bytes) → i < n → get_or (take n bs) i 0 ≡ get_or bs i 0
get_or-take zero i bs h = absurd (omega arith)
get_or-take (suc n) i [] h = refl
get_or-take (suc n) zero (b ∷ bs) h = refl
get_or-take (suc n) (suc i) (b ∷ bs) h = get_or-take n i bs (omega arith)

pub align_down-page_lo : (x : ℕ) → align_down x ≡ page_lo x
unfolding align_down
align_down-page_lo x = refl

pub align_up-page_hi : (x : ℕ) → x + (page - 1) < 2 ^ 64 → align_up x ≡ page_hi x
unfolding align_up align_down
align_up-page_hi x h = omega arith

fill-byte :
    (end dest n : ℕ) (src : Option Bytes) (s : Space)
    → n ≤ length (source src)
    → dest + n ≤ end
    → fill end dest n src s
      ≡ ok (record {
        byte = (if n == 0 then s.byte else store dest (take n (source src)) s.byte);
        prot = s.prot;
      })
unfolding fill copy_in
fill-byte end dest n none s h e = ground arith
fill-byte end dest n (some bs) s h e = ground arith

module _ (lo n dest filesz : ℕ) (bs : Bytes) (v prot : ℕ) (s : Space) where
  result : Space
  result = protect lo n prot (record {
    byte =
        if filesz == 0
        then (map_pages lo n v s).byte
        else store dest (take filesz bs) (map_pages lo n v s).byte;
    prot = (map_pages lo n v s).prot;
  })

  result-Placed :
      (hi : ℕ)
      → lo + n ≡ hi
      → lo ≤ dest
      → dest + filesz ≤ hi
      → filesz ≤ length bs
      → Placed lo hi dest filesz bs prot s result
  unfolding result protect map_pages
  result-Placed hi e l h f = record {
    copied = λ i k. ground (
      arith,
      store-inside dest (take filesz bs) (clear lo n s.byte) i,
      get_or-take filesz i bs k,
      length-take {0} filesz bs,
    );
    cleared = λ a p q o. ground (
      arith,
      store-outside dest (take filesz bs) (clear lo n s.byte) a,
      clear-inside lo n s.byte a,
      length-take {0} filesz bs,
    );
    kept = λ a o. (
      ground (
        arith,
        store-outside dest (take filesz bs) (clear lo n s.byte) a,
        clear-outside lo n s.byte a,
        length-take {0} filesz bs,
      ),
      ground arith,
    );
    protected = λ a p q. ground arith;
  }

-- A segment that can be mapped at `dest`: it ends below the top of the address space, has no more
-- bytes in the file than in memory, and its source holds those bytes.
pub record FitsAt (dest filesz memsz : ℕ) (src : Option Bytes) : Type 0 where
  pub top : dest + memsz + (page - 1) < 2 ^ 64
  pub tail : filesz ≤ memsz
  pub held : filesz ≤ length (source src)

-- With `load_bias + vaddr` wrapping to `dest`.
pub map_segment-Placed :
    (k : Kernel) (bias vaddr filesz memsz : ℕ) (src : Option Bytes) (prot dest : ℕ) (s : Space)
    → Grants k
    → word (bias + vaddr) ≡ dest
    → FitsAt dest filesz memsz src
    → (s' : Space) × (map_segment k bias vaddr filesz memsz src prot s ≡ ok s')
      × Placed (page_lo dest) (page_hi (dest + memsz)) dest filesz (source src) prot s s'
unfolding map_segment
map_segment-Placed k bias vaddr filesz memsz src prot dest s g d f = (
  result lo n dest filesz (source src) rw_prot prot s,
  rw (d, wrapped, align_down-page_lo dest, align_up-page_hi (dest + memsz) f.top, g.fixed lo n)
      (>>=-step _ (fill-byte hi dest filesz src (map_pages lo n rw_prot s) f.held fits)
        (rw (g.mprotect lo n prot) (unfold result in refl))),
  result-Placed lo n dest filesz (source src) rw_prot prot s hi span (omega arith) fits f.held,
)
  where
    lo : ℕ
    lo = page_lo dest

    hi : ℕ
    hi = page_hi (dest + memsz)

    n : ℕ
    n = word (hi + 2 ^ 64 - lo)

    rw_prot : ℕ
    rw_prot = bit_or prot_read prot_write

    wrapped : word (bias + vaddr + memsz) ≡ dest + memsz
    wrapped = omega (arith, f.top, d)

    span : lo + n ≡ hi
    span = omega (arith, f.top)

    fits : dest + filesz ≤ hi
    fits = omega (arith, f.top, f.tail)
