-- ===== src/Server/Render/Ends.antt =====
-- `render` ends, whatever memory it is granted.
use native.Mathlib.Nat.{le_refl}
use selfdb.Base.{
  ℕ, zero, suc, ◌+◌, ◌^◌, ◌≤◌, ◌<◌, ◌≡◌, ap, ◌∙◌, [], ◌∷◌, Bool, Bytes, Option, length,
  length-append, ok, >>=-step, arith, ◌++◌,
}
use selfdb.Server.Buffer.{Buffer, empty, buf_append-ends}
use selfdb.Server.Render.{shown, render_from, render}
use selfdb.Server.Render.Expand.{Round, last, more, expand, round, length-shorter}

module _ (realloc : ℕ → Bool) (value : Bytes → Option Bytes) where
  -- No more is written than the expanded page.
  abbrev Ends : ℕ → Bytes → Buffer → Type 0
  Ends fuel html out =
      (out' : Buffer) × (render_from realloc value fuel html out ≡ ok out')
      × (length out'.bytes ≤ length out.bytes + length (expand value fuel html))

  Round-Ends :
      (fuel : ℕ) (html : Bytes) (out : Buffer)
      → length html ≤ suc fuel
      → length out.bytes + length (expand value (suc fuel) html) < 2 ^ 63
      → Round value html
      → ((rest : Bytes) (out' : Buffer)
          → length rest ≤ fuel
          → length out'.bytes + length (expand value fuel rest) < 2 ^ 63
          → Ends fuel rest out')
      → Ends (suc fuel) html out
  Round-Ends fuel html out h b (last e r) ih =
      let size = ap (length {A = ℕ}) (e fuel) in
      let (out', done, l) = buf_append-ends realloc html out (omega (arith, b, size)) in
      (out', r fuel realloc out ∙ done, omega (arith, l, size))
  Round-Ends fuel html out h b (more text name rest shape e r) ih =
      let v = shown (value name) name in
      let total = ap (length {A = ℕ}) (e fuel) ∙ length-append text (v ++ expand value fuel rest) in
      let inner = length-append v (expand value fuel rest) in
      let (o1, a1, l1) = buf_append-ends realloc text out (omega (arith, b, total, inner)) in
      let (o2, a2, l2) = buf_append-ends realloc v o1 (omega (arith, b, total, inner, l1)) in
      let (o3, a3, l3) =
        ih rest o2 (omega (arith, h, length-shorter value text name rest html shape))
          (omega (arith, b, total, inner, l1, l2)) in
      (
        o3,
        r fuel realloc out ∙ >>=-step _ a1 (>>=-step _ a2 a3),
        omega (arith, total, inner, l1, l2, l3),
      )

  render_from-Ends :
      (fuel : ℕ) (html : Bytes) (out : Buffer)
      → length html ≤ fuel
      → length out.bytes + length (expand value fuel html) < 2 ^ 63
      → Ends fuel html out
  render_from-Ends zero [] out h b =
      unfold render_from expand in buf_append-ends realloc [] out (omega (arith, b))
  render_from-Ends zero (c ∷ cs) out h b = absurd (omega (arith, h))
  render_from-Ends (suc fuel) html out h b =
      Round-Ends fuel html out h b (round value html)
        (λ rest out' l. render_from-Ends fuel rest out' l)

  -- `render` ends with some text, no longer than the page with its variables replaced, whatever
  -- `realloc` grants. Condition: that page is shorter than 2 ^ 63 bytes.
  pub render-ends :
      (html : Bytes)
      → length (expand value (length html) html) < 2 ^ 63
      → (out : Buffer) × (render realloc value html ≡ ok out)
        × (length out.bytes ≤ length (expand value (length html) html))
  unfolding render
  render-ends html b =
      let (out, e, l) = render_from-Ends (length html) html empty (le_refl _) (omega (arith, b)) in
      (out, e, omega (arith, l))
