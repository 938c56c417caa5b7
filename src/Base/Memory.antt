-- ===== src/Base/Memory.antt =====
-- Byte-addressed memory: what an address holds, and stores of a run of bytes.
use Prim.Native.Nat.{ℕ, zero, suc, ◌+◌, ◌-◌, ◌≤◌, ◌<◌}
use mathlib.Core.Path.{◌≡◌, refl, ap, ◌∙◌}
use mathlib.Core.Logic.{◌⊎◌}
use mathlib.Core.Bool.{Bool, ◌&&◌}
use mathlib.Core.List.{[], ◌∷◌}
use native.Mathlib.Omega.{arith}
use selfdb.Base.Tests.{ltb, leb, if◌then◌else◌}
use selfdb.Base.Lists.{length, get_or}
use selfdb.Base.Strings.{Bytes}

abbrev pub Memory : Type 0
Memory = ℕ → ℕ

-- Whether `a` is one of the `n` addresses from `lo` on.
abbrev pub within : ℕ → ℕ → ℕ → Bool
within lo n a = leb lo a && ltb a (lo + n)

-- `memcpy(p, src, length src)`
unfoldable pub store : ℕ → Bytes → Memory → Memory
store p src m a = if within p (length src) a then get_or src (a - p) 0 else m a

-- `memset(p, 0, n)`, and what a fresh anonymous mapping holds
unfoldable pub clear : ℕ → ℕ → Memory → Memory
clear p n m a = if within p n a then 0 else m a

-- The `n` bytes from `p` on.
unfoldable pub load : ℕ → ℕ → Memory → Bytes
load p zero m = []
load p (suc n) m = m p ∷ load (p + 1) n m

pub store-inside :
    (p : ℕ) (src : Bytes) (m : Memory) (i : ℕ)
    → i < length src
    → store p src m (p + i) ≡ get_or src i 0
unfolding store
store-inside p src m i h =
    ground (arith, ap (λ k. get_or src k 0) {x = p + i - p} {y = i} (omega arith))

pub store-outside :
    (p : ℕ) (src : Bytes) (m : Memory) (a : ℕ)
    → (a < p) ⊎ (p + length src ≤ a)
    → store p src m a ≡ m a
unfolding store
store-outside p src m a h = ground arith

pub clear-inside : (p n : ℕ) (m : Memory) (a : ℕ) → p ≤ a → a < p + n → clear p n m a ≡ 0
unfolding clear
clear-inside p n m a h k = ground arith

pub clear-outside : (p n : ℕ) (m : Memory) (a : ℕ) → (a < p) ⊎ (p + n ≤ a) → clear p n m a ≡ m a
unfolding clear
clear-outside p n m a h = ground arith

-- Two memories with the same bytes in a range load the same.
pub load-same :
    (p n : ℕ) (m m' : Memory)
    → ((i : ℕ) → i < n → m (p + i) ≡ m' (p + i))
    → load p n m ≡ load p n m'
unfolding load
load-same p zero m m' h = refl
load-same p (suc n) m m' h =
    ap (λ b. b ∷ load (p + 1) n m) (first (h 0 (omega arith)))
    ∙ ap (λ bs. m' p ∷ bs) (load-same (p + 1) n m m' (λ i k. second i (h (suc i) (omega arith))))
  where
    first : m (p + 0) ≡ m' (p + 0) → m p ≡ m' p
    first e = ap m {x = p} {y = p + 0} (omega arith) ∙ e ∙ ap m' {x = p + 0} {y = p} (omega arith)

    second : (i : ℕ) → m (p + suc i) ≡ m' (p + suc i) → m (p + 1 + i) ≡ m' (p + 1 + i)
    second i e =
        ap m {x = p + 1 + i} {y = p + suc i} (omega arith)
        ∙ e
        ∙ ap m' {x = p + suc i} {y = p + 1 + i} (omega arith)

-- What has been stored is loaded again.
pub load-of_get_or :
    (p : ℕ) (bs : Bytes) (m : Memory)
    → ((i : ℕ) → i < length bs → m (p + i) ≡ get_or bs i 0)
    → load p (length bs) m ≡ bs
unfolding load
load-of_get_or p [] m h = refl
load-of_get_or p (b ∷ bs) m h =
    ap (λ c. c ∷ load (p + 1) (length bs) m)
      (ap m {x = p} {y = p + 0} (omega arith) ∙ h 0 (omega arith))
    ∙ ap (λ cs. b ∷ cs)
        (load-of_get_or (p + 1) bs m
          (λ i k. ap m {x = p + 1 + i} {y = p + suc i} (omega arith) ∙ h (suc i) (omega arith)))

pub load-store : (p : ℕ) (bs : Bytes) (m : Memory) → load p (length bs) (store p bs m) ≡ bs
load-store p bs m = load-of_get_or p bs (store p bs m) (store-inside p bs m)

pub load-store_disjoint :
    (p n q : ℕ) (bs : Bytes) (m : Memory)
    → (p + n ≤ q) ⊎ (q + length bs ≤ p)
    → load p n (store q bs m) ≡ load p n m
load-store_disjoint p n q bs m h =
    load-same p n (store q bs m) m (λ i k. store-outside q bs m (p + i) (omega arith))
