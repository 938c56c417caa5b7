-- ===== src/Server/Render/Expand.antt =====
-- The text that `render` writes, as a function of the page alone, and that the loop ends.
use selfdb.Base.{
  ℕ, zero, suc, ◌+◌, ◌^◌, ◌≤◌, ◌<◌, ◌==◌, ◌≡◌, refl, ap, sym, ◌∙◌, Bool, true, ◌&&◌, [], ◌∷◌, ◌++◌,
  Option, none, some, Bytes, length, length-append, append_assoc, ok, ◌>>=◌, >>=-step, arith,
  Bool-cases, Option-cases, inl, inr,
}
use selfdb.Server.Buffer.{Buffer, buf_append, buf_append-granted}
use selfdb.Server.Render.{open_mark, close_mark, before, find_pair, shown, render_from}

-- A match splits the text round the two bytes.
pub find_pair-splits :
    (c : ℕ) (s text after : Bytes)
    → find_pair c s ≡ some (text, after)
    → s ≡ text ++ (c ∷ c ∷ after)
unfolding find_pair
find_pair-splits c [] text after h = cc
find_pair-splits c (x ∷ []) text after h = cc
find_pair-splits c (x ∷ y ∷ rest) text after h = elim (Bool-cases (x == c && y == c)) [
  | inl here ↦ ground arith
  | inr there ↦ elim (Option-cases (find_pair c (y ∷ rest))) [
    | inl e ↦ cc (rw (there, e) at h)
    | inr (p, e) ↦ later p (rw (there, e) at h) (find_pair-splits c (y ∷ rest) p.0 p.1 e)
  ]
]
  where
    later :
        (p : Bytes × Bytes)
        → ◌≡◌ {A = Option (Bytes × Bytes)} (some (x ∷ p.0, p.1)) (some (text, after))
        → y ∷ rest ≡ p.0 ++ (c ∷ c ∷ p.1)
        → x ∷ y ∷ rest ≡ text ++ (c ∷ c ∷ after)
    later p k ih = ground arith

-- The search for "}}" may as well begin behind the "{{".
find_close-skip :
    (after : Bytes)
    → find_pair b'}' (open_mark ++ after) ≡ before b'{' (before b'{' (find_pair b'}' after))
unfolding find_pair
find_close-skip [] = refl
find_close-skip (c ∷ rest) = refl

module _ (value : Bytes → Option Bytes) where
  -- The page with its variables replaced, for pages no longer than the fuel.
  unfoldable pub expand : ℕ → Bytes → Bytes
  expand zero html = html
  expand (suc fuel) html = elim (find_pair b'{' html) [
    | none ↦ html
    | some (text, after) ↦ elim (find_pair b'}' after) [
      | none ↦ html
      | some (name, rest) ↦ text ++ (shown (value name) name ++ expand fuel rest)
    ]
  ]

  -- The cases of one round.
  pub data Round (html : Bytes) : Type 0 where
    last :
        ((fuel : ℕ) → expand (suc fuel) html ≡ html)
        → ((fuel : ℕ) (realloc : ℕ → Bool) (out : Buffer)
            → render_from realloc value (suc fuel) html out ≡ buf_append realloc html out)
        → Round html
    more :
        (text name rest : Bytes)
        → html ≡ text ++ (open_mark ++ (name ++ (close_mark ++ rest)))
        → ((fuel : ℕ)
            → expand (suc fuel) html ≡ text ++ (shown (value name) name ++ expand fuel rest))
        → ((fuel : ℕ) (realloc : ℕ → Bool) (out : Buffer)
            → render_from realloc value (suc fuel) html out ≡ (
                buf_append realloc text out >>= λ out1.
                buf_append realloc (shown (value name) name) out1 >>= λ out2.
                render_from realloc value fuel rest out2))
        → Round html

  pub round : (html : Bytes) → Round html
  unfolding expand render_from
  round html = elim (Option-cases (find_pair b'{' html)) [
    | inl e ↦ last (λ fuel. ground arith) (λ fuel realloc out. ground arith)
    | inr (p, e) ↦ elim (Option-cases (find_pair b'}' p.1)) [
      | inl f ↦
          last (λ fuel. ground arith) (λ fuel realloc out. ground (arith, find_close-skip p.1))
      | inr (q, f) ↦
          more p.0 q.0 q.1
            (find_pair-splits b'{' html p.0 p.1 e
              ∙ ap (λ a. p.0 ++ (b'{' ∷ b'{' ∷ a)) (find_pair-splits b'}' p.1 q.0 q.1 f))
            (λ fuel. ground arith) (λ fuel realloc out. ground (arith, find_close-skip p.1))
    ]
  ]

  pub length-shorter :
      (text name rest : Bytes) (html : Bytes)
      → html ≡ text ++ (open_mark ++ (name ++ (close_mark ++ rest)))
      → length rest + 4 ≤ length html
  length-shorter text name rest html e = omega (
    arith,
    ap (length {A = ℕ}) e,
    length-append {0} text (open_mark ++ (name ++ (close_mark ++ rest))),
    length-append {0} name (close_mark ++ rest),
  )

  -- The loop ends within the page's length, and has then written the expanded page.
  pub render_from-expand :
      (fuel : ℕ) (html : Bytes) (out : Buffer)
      → length html ≤ fuel
      → length out.bytes + length (expand fuel html) < 2 ^ 63
      → (cap : ℕ) × (render_from (λ n. true) value fuel html out
          ≡ ok (record { bytes = out.bytes ++ expand fuel html; cap = cap }))
  render_from-expand zero [] out h b =
      unfold render_from expand in buf_append-granted [] out (omega arith)
  render_from-expand zero (c ∷ cs) out h b = absurd (omega arith)
  render_from-expand (suc fuel) html out h b =
      round_case (round html) (λ rest out' l. render_from-expand fuel rest out' l)
    where
      round_case :
          Round html
          → ((rest : Bytes) (out' : Buffer)
              → length rest ≤ fuel
              → length out'.bytes + length (expand fuel rest) < 2 ^ 63
              → (cap : ℕ) × (render_from (λ n. true) value fuel rest out'
                  ≡ ok (record { bytes = out'.bytes ++ expand fuel rest; cap = cap })))
          → (cap : ℕ) × (render_from (λ n. true) value (suc fuel) html out
              ≡ ok (record { bytes = out.bytes ++ expand (suc fuel) html; cap = cap }))
      round_case (last e r) ih =
          let (cap, done) =
            buf_append-granted html out (omega (arith, ap (length {A = ℕ}) (e fuel))) in
          (
            cap,
            r fuel (λ n. true) out
                ∙ done
                ∙ ap (λ t. ok (record { bytes = out.bytes ++ t; cap = cap })) (sym (e fuel)),
          )
      round_case (more text name rest shape e r) ih =
          let v = shown (value name) name in
          let total = ap (length {A = ℕ}) (e fuel) ∙ length-append text (v ++ expand fuel rest) in
          let inner = length-append v (expand fuel rest) in
          let (c1, a1) = buf_append-granted text out (omega (arith, total, inner)) in
          let out1 : Buffer = record { bytes = out.bytes ++ text; cap = c1 } in
          let (c2, a2) =
            buf_append-granted v out1
              (omega (arith, total, inner, length-append {0} out.bytes text)) in
          let out2 : Buffer = record { bytes = out1.bytes ++ v; cap = c2 } in
          let (c3, a3) = ih rest out2 (omega (arith, length-shorter text name rest html shape)) (
            omega (
              arith,
              total,
              inner,
              length-append {0} out.bytes text,
              length-append {0} out1.bytes v,
            )) in
          (
            c3,
            r fuel (λ n. true) out
                ∙ >>=-step _ a1 (>>=-step _ a2 a3)
                ∙ ap (λ t. ok (record { bytes = t; cap = c3 }))
                    (append_assoc (out.bytes ++ text) v (expand fuel rest)
                      ∙ append_assoc out.bytes text (v ++ expand fuel rest)
                      ∙ ap (λ t. out.bytes ++ t) (sym (e fuel))),
          )
