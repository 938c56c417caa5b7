-- ===== src/Loader/Stack/Vector.antt =====
-- The words below the strings: where they stand, and that they are read back.
use selfdb.Base.{
  ℕ, ◌+◌, ◌*◌, ◌%◌, ◌^◌, ◌≤◌, ◌<◌, ◌≡◌, ap, sym, ◌∙◌, inl, inr, List, [], ◌∷◌, length,
  length-append, get_or, get_or-append_left, get_or-append_right, arith, ok,
}
use selfdb.Base.Word.{word, le_bytes, of_le, of_le_eight, length-le_bytes}
use selfdb.Base.Memory.{Memory, store, load, load-of_get_or, store-inside, store-outside}
use selfdb.Loader.Stack.{Stack, words_bytes, align_sp, lay_vector}
use selfdb.Loader.Stack.Strings.{KeepsFrom, KeepsBelow}

-- The words from `p` on, each in eight bytes.
abbrev pub Words : Memory → ℕ → List ℕ → Type 0
Words m p [] = Unit
Words m p (w ∷ ws) = (of_le (load p 8 m) ≡ word w) × Words m (p + 8) ws

length-words_bytes : (ws : List ℕ) → length (words_bytes ws) ≡ 8 * length ws
length-words_bytes [] = omega arith
length-words_bytes (w ∷ ws) = omega (
  arith,
  length-append {0} (le_bytes 8 w) (words_bytes ws),
  length-le_bytes 8 w,
  length-words_bytes ws,
)

first_word :
    (w : ℕ) (m : Memory) (p : ℕ)
    → ((i : ℕ) → i < 8 → m (p + i) ≡ get_or (le_bytes 8 w) i 0)
    → of_le (load p 8 m) ≡ word w
first_word w m p h =
    ap (λ n. of_le (load p n m)) (sym (length-le_bytes 8 w))
    ∙ ap of_le (load-of_get_or p (le_bytes 8 w) m (λ i k. h i (omega (arith, length-le_bytes 8 w))))
    ∙ of_le_eight w

Words-of_bytes :
    (ws : List ℕ) (m : Memory) (p : ℕ)
    → ((i : ℕ) → i < 8 * length ws → m (p + i) ≡ get_or (words_bytes ws) i 0)
    → Words m p ws
Words-of_bytes [] m p h = tt
Words-of_bytes (w ∷ ws) m p h = (
  first_word w m p (λ i k.
      h i (omega arith)
      ∙ get_or-append_left (le_bytes 8 w) (words_bytes ws) i 0
          (omega (arith, length-le_bytes 8 w))),
  Words-of_bytes ws m (p + 8) (λ i k.
      ap m {x = p + 8 + i} {y = p + (8 + i)} (omega arith)
      ∙ h (8 + i) (omega arith)
      ∙ ap (λ n. get_or (words_bytes (w ∷ ws)) (n + i) 0) (sym (length-le_bytes 8 w))
      ∙ get_or-append_right (le_bytes 8 w) (words_bytes ws) i 0),
)

-- With room for the words and for the padding: the stack pointer is a multiple of 16 inside the
-- block, the words stand from there on, and nothing above the strings or below the block has changed.
pub lay_vector_lem :
    (ws : List ℕ) (s : Stack)
    → s.base + 8 * length ws + 15 ≤ s.p
    → s.p < 2 ^ 64
    → (sp : ℕ) × (m : Memory) × (lay_vector ws s ≡ ok (sp, m))
      × (sp % 16 ≡ 0)
      × (s.base ≤ sp)
      × (sp + 8 * length ws ≤ s.p)
      × Words m sp ws
      × KeepsFrom s.p s.mem m
      × KeepsBelow s.base s.mem m
unfolding lay_vector
lay_vector_lem ws s h t = (
  sp,
  store sp (words_bytes ws) s.mem,
  ground (arith, sp_facts),
  sp_facts.0,
  sp_facts.1,
  sp_facts.2,
  Words-of_bytes ws (store sp (words_bytes ws) s.mem) sp
      (λ i k. store-inside sp (words_bytes ws) s.mem i (omega (arith, length-words_bytes ws))),
  λ a l.
      store-outside sp (words_bytes ws) s.mem a
        (inr (omega (arith, length-words_bytes ws, sp_facts.2))),
  λ a l. store-outside sp (words_bytes ws) s.mem a (inl (omega (arith, sp_facts.1))),
)
  where
    sp : ℕ
    sp = align_sp s.p (length ws)

    sp_facts : (sp % 16 ≡ 0) × (s.base ≤ sp) × (sp + 8 * length ws ≤ s.p)
    sp_facts = unfold align_sp in omega arith
