-- ===== src/Server/Pool/Slots.antt =====
-- How often a pid stands in `workers`.
use selfdb.Base.{
  ℕ, ◌+◌, ◌<◌, ◌==◌, ◌≡◌, refl, if◌then◌else◌, true, false, List, [], ◌∷◌, ◌++◌, Option, none, some,
  length, arith, Bool-cases, inl, inr,
}
use selfdb.Server.Pool.{replace, holds}

abbrev pub is : ℕ → Option ℕ → ℕ
is p none = 0
is p (some q) = if q == p then 1 else 0

unfoldable pub count : ℕ → List (Option ℕ) → ℕ
count p [] = 0
count p (r ∷ rest) = is p r + count p rest

pub count-append :
    (p : ℕ) (xs : List (Option ℕ)) (r : Option ℕ) → count p (xs ++ r ∷ []) ≡ count p xs + is p r
unfolding count
count-append p [] r = omega arith
count-append p (x ∷ xs) r = omega (arith, count-append p xs r)

pub count-replace :
    (p g : ℕ) (r : Option ℕ) (xs : List (Option ℕ))
    → 0 < count g xs
    → count p (replace g r xs) + is p (some g) ≡ count p xs + is p r
unfolding count replace
count-replace p g r [] h = absurd (omega arith)
count-replace p g r (none ∷ xs) h = omega (arith, count-replace p g r xs (omega (arith, h)))
count-replace p g r (some q ∷ xs) h = elim (Bool-cases (q == g)) [
  | inl this ↦ ground arith
  | inr other ↦ ground (arith, count-replace p g r xs)
]

pub holds-count : (p : ℕ) (xs : List (Option ℕ)) → 0 < count p xs → holds p xs ≡ true
unfolding count holds
holds-count p [] h = absurd (omega arith)
holds-count p (none ∷ xs) h = holds-count p xs (omega (arith, h))
holds-count p (some q ∷ xs) h = ground (arith, holds-count p xs)

pub not_held-count : (p : ℕ) (xs : List (Option ℕ)) → holds p xs ≡ false → count p xs ≡ 0
unfolding count holds
not_held-count p [] h = refl
not_held-count p (none ∷ xs) h = omega (arith, not_held-count p xs h)
not_held-count p (some q ∷ xs) h = ground (arith, not_held-count p xs)

pub count-holds : (p : ℕ) (xs : List (Option ℕ)) → holds p xs ≡ true → 0 < count p xs
unfolding count holds
count-holds p [] h = cc
count-holds p (none ∷ xs) h = omega (arith, count-holds p xs h)
count-holds p (some q ∷ xs) h = ground (arith, count-holds p xs)

pub length-replace :
    (g : ℕ) (r : Option ℕ) (xs : List (Option ℕ)) → length (replace g r xs) ≡ length xs
unfolding replace
length-replace g r [] = refl
length-replace g r (none ∷ xs) = omega (arith, length-replace g r xs)
length-replace g r (some q ∷ xs) = ground (arith, length-replace g r xs)
