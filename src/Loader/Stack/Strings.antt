-- ===== src/Loader/Stack/Strings.antt =====
-- The strings that are pushed stay readable at the addresses that are returned.
use selfdb.Base.{
  ℕ, ◌+◌, ◌-◌, ◌≤◌, ◌<◌, ◌≡◌, refl, ◌∙◌, inl, inr, List, [], ◌∷◌, ◌++◌, Bytes, length,
  length-append, arith, ok, >>=-step,
}
use selfdb.Base.Memory.{Memory, store, load, load-store, load-same, store-outside}
use selfdb.Loader.Stack.{Stack, push_bytes, push_str, push_all}

-- The strings' bytes with their NULs.
abbrev pub total : List Bytes → ℕ
total [] = 0
total (str ∷ rest) = length str + 1 + total rest

-- `q` is the address of a run of bytes between `lo` and `hi`.
pub record PointsTo (m : Memory) (lo hi q : ℕ) (bs : Bytes) : Type 0 where
  pub above : lo ≤ q
  pub below : q + length bs ≤ hi
  pub reads : load q (length bs) m ≡ bs

-- The addresses and the strings go together, each string with its NUL.
abbrev pub AllPoint : Memory → ℕ → ℕ → List ℕ → List Bytes → Type 0
AllPoint m lo hi [] [] = Unit
AllPoint m lo hi [] (str ∷ strs) = ⊥
AllPoint m lo hi (q ∷ qs) [] = ⊥
AllPoint m lo hi (q ∷ qs) (str ∷ strs) =
    PointsTo m lo hi q (str ++ 0 ∷ []) × AllPoint m lo hi qs strs

-- Nothing from `lo` up has changed.
abbrev pub KeepsFrom : ℕ → Memory → Memory → Type 0
KeepsFrom lo m m' = (a : ℕ) → lo ≤ a → m' a ≡ m a

-- Nothing below `hi` has changed.
abbrev pub KeepsBelow : ℕ → Memory → Memory → Type 0
KeepsBelow hi m m' = (a : ℕ) → a < hi → m' a ≡ m a

pub PointsTo-keep :
    (m m' : Memory) (lo lo' hi hi' q : ℕ) (bs : Bytes)
    → KeepsFrom lo m m'
    → lo' ≤ lo
    → hi ≤ hi'
    → PointsTo m lo hi q bs
    → PointsTo m' lo' hi' q bs
PointsTo-keep m m' lo lo' hi hi' q bs k l h p = record {
  above = omega (arith, p.above);
  below = omega (arith, p.below);
  reads = load-same q (length bs) m' m (λ i b. k (q + i) (omega (arith, p.above))) ∙ p.reads;
}

pub AllPoint-keep :
    (m m' : Memory) (lo lo' hi hi' : ℕ) (qs : List ℕ) (strs : List Bytes)
    → KeepsFrom lo m m'
    → lo' ≤ lo
    → hi ≤ hi'
    → AllPoint m lo hi qs strs
    → AllPoint m' lo' hi' qs strs
AllPoint-keep m m' lo lo' hi hi' [] [] k l h p = tt
AllPoint-keep m m' lo lo' hi hi' [] (str ∷ strs) k l h p = absurd p
AllPoint-keep m m' lo lo' hi hi' (q ∷ qs) [] k l h p = absurd p
AllPoint-keep m m' lo lo' hi hi' (q ∷ qs) (str ∷ strs) k l h p = (
  PointsTo-keep m m' lo lo' hi hi' q (str ++ 0 ∷ []) k l h p.0,
  AllPoint-keep m m' lo lo' hi hi' qs strs k l h p.1,
)

-- What a push of `n` bytes leaves.
pub record Pushed (n : ℕ) (s s' : Stack) : Type 0 where
  pub base_same : s'.base ≡ s.base
  pub cursor : s'.p + n ≡ s.p
  pub keeps : KeepsFrom s.p s.mem s'.mem
  pub under : KeepsBelow s.base s.mem s'.mem

pub push_bytes_lem :
    (bs : Bytes) (s : Stack)
    → s.base + length bs ≤ s.p
    → (q : ℕ) × (s' : Stack) × (push_bytes bs s ≡ ok (q, s'))
      × Pushed (length bs) s s'
      × PointsTo s'.mem s'.p s.p q bs
unfolding push_bytes
push_bytes_lem bs s h = (
  s.p - length bs,
  record { base = s.base; p = s.p - length bs; mem = store (s.p - length bs) bs s.mem },
  ground arith,
  record {
    base_same = refl;
    cursor = omega arith;
    keeps = λ a l. store-outside (s.p - length bs) bs s.mem a (inr (omega arith));
    under = λ a l. store-outside (s.p - length bs) bs s.mem a (inl (omega arith));
  },
  record {
    above = omega arith;
    below = omega arith;
    reads = load-store (s.p - length bs) bs s.mem;
  },
)

pub Pushed-trans :
    (n n' : ℕ) (s s' s'' : Stack) → Pushed n s s' → Pushed n' s' s'' → Pushed (n + n') s s''
Pushed-trans n n' s s' s'' a b = record {
  base_same = b.base_same ∙ a.base_same;
  cursor = omega (arith, a.cursor, b.cursor);
  keeps = λ x l. b.keeps x (omega (arith, a.cursor)) ∙ a.keeps x l;
  under = λ x l. b.under x (omega (arith, a.base_same)) ∙ a.under x l;
}

-- With room for the strings the loop pushes all of them, one below the other, and each address that
-- it notes is that of its string, NUL included.
pub push_all_lem :
    (strs : List Bytes) (s : Stack)
    → s.base + total strs ≤ s.p
    → (qs : List ℕ) × (s' : Stack) × (push_all strs s ≡ ok (qs, s'))
      × Pushed (total strs) s s'
      × AllPoint s'.mem s'.p s.p qs strs
unfolding push_all push_str
push_all_lem [] s h = (
  [],
  s,
  refl,
  record { base_same = refl; cursor = omega arith; keeps = λ a l. refl; under = λ a l. refl },
  tt,
)
push_all_lem (str ∷ rest) s h =
    let (q, s1, e, pushed, at) =
      push_bytes_lem (str ++ 0 ∷ []) s (omega (arith, length-append {0} str (0 ∷ []))) in
    let (qs, s2, e', pushed', ats) =
      push_all_lem rest s1
        (omega (arith, length-append {0} str (0 ∷ []), pushed.base_same, pushed.cursor)) in
    let both = Pushed-trans (length (str ++ 0 ∷ [])) (total rest) s s1 s2 pushed pushed' in
    (
      q ∷ qs,
      s2,
      >>=-step _ e (>>=-step _ e' refl),
      record {
        base_same = both.base_same;
        cursor = omega (arith, length-append {0} str (0 ∷ []), both.cursor);
        keeps = both.keeps;
        under = both.under;
      },
      (
        PointsTo-keep s1.mem s2.mem s1.p s2.p s.p s.p q (str ++ 0 ∷ []) pushed'.keeps
            (omega (arith, pushed'.cursor)) (omega arith) at,
        AllPoint-keep s2.mem s2.mem s2.p s2.p s1.p s.p qs rest (λ a l. refl) (omega arith)
            (omega (arith, pushed.cursor)) ats,
      ),
    )
