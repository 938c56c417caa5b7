-- ===== src/Base/Word.antt =====
-- 64-bit words: sums wrap, and a word is stored with its lowest byte first.
use Prim.Native.Nat.{ℕ, zero, suc, ◌+◌, ◌*◌, ◌/◌, ◌%◌, ◌^◌}
use mathlib.Core.Path.{◌≡◌, refl, ap}
use mathlib.Core.List.{[], ◌∷◌}
use native.Mathlib.Omega.{arith}
use selfdb.Base.Lists.{length}
use selfdb.Base.Strings.{Bytes}

abbrev pub word : ℕ → ℕ
word a = a % 2 ^ 64

-- The `k` bytes of `v`, lowest first.
unfoldable pub le_bytes : ℕ → ℕ → Bytes
le_bytes zero v = []
le_bytes (suc k) v = (v % 256) ∷ le_bytes k (v / 256)

unfoldable pub of_le : Bytes → ℕ
of_le [] = 0
of_le (b ∷ bs) = b + 256 * of_le bs

pub length-le_bytes : (k v : ℕ) → length (le_bytes k v) ≡ k
unfolding le_bytes
length-le_bytes zero v = refl
length-le_bytes (suc k) v = ap suc (length-le_bytes k (v / 256))

pub of_le_two : (v : ℕ) → of_le (le_bytes 2 v) ≡ v % 2 ^ 16
unfolding le_bytes of_le
of_le_two v = omega arith

pub of_le_four : (v : ℕ) → of_le (le_bytes 4 v) ≡ v % 2 ^ 32
unfolding le_bytes of_le
of_le_four v = omega arith

pub of_le_eight : (v : ℕ) → of_le (le_bytes 8 v) ≡ v % 2 ^ 64
unfolding le_bytes of_le
of_le_eight v = omega arith
