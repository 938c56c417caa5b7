-- ===== src/Server/Render/Template.antt =====
-- What `render` makes of every page: pages as templates, and pages without known names.
use selfdb.Base.{
  ℕ, zero, suc, ◌^◌, ◌≤◌, ◌<◌, ◌==◌, ◌≡◌, refl, ap, sym, ◌∙◌, true, ◌&&◌, List, [], ◌∷◌, ◌++◌,
  Option, none, some, Bytes, length, append_assoc, All, ok, arith, Bool-cases, Option-cases, inl,
  inr,
}
use selfdb.Server.Buffer.{empty}
use selfdb.Server.Render.{open_mark, close_mark, find_pair, shown, render}
use selfdb.Server.Render.Expand.{
  Round, last, more, expand, round, render_from-expand, length-shorter,
}

-- A text, and the name of a variable behind it.
abbrev pub Part : Type 0
Part = Bytes × Bytes

-- The page that the parts and the text behind them make up.
abbrev pub page_of : List Part → Bytes → Bytes
page_of [] tail = tail
page_of ((text, name) ∷ rest) tail =
    text ++ (open_mark ++ (name ++ (close_mark ++ page_of rest tail)))

-- The same with every variable replaced.
abbrev pub filled : (Bytes → Option Bytes) → List Part → Bytes → Bytes
filled value [] tail = tail
filled value ((text, name) ∷ rest) tail =
    text ++ (shown (value name) name ++ filled value rest tail)

-- The text has no "{{" and does not end in "{"; the name has no "}}" and does not end in "}".
abbrev pub IsPart : Part → Type 0
IsPart (text, name) =
    (find_pair b'{' (text ++ b'{' ∷ []) ≡ none) × (find_pair b'}' (name ++ b'}' ∷ []) ≡ none)

-- The first pair stands behind a text that has none, even with one more such byte.
find_pair-append :
    (c : ℕ) (t rest : Bytes)
    → find_pair c (t ++ c ∷ []) ≡ none
    → find_pair c (t ++ (c ∷ c ∷ rest)) ≡ some (t, rest)
unfolding find_pair
find_pair-append c [] rest h = ground arith
find_pair-append c (x ∷ []) rest h = ground arith
find_pair-append c (x ∷ y ∷ t) rest h = elim (Bool-cases (x == c && y == c)) [
  | inl e ↦ cc (rw e at h)
  | inr e ↦ elim (Option-cases (find_pair c (y ∷ (t ++ c ∷ [])))) [
    | inl f ↦ rw (e, find_pair-append c (y ∷ t) rest f)
    | inr (p, f) ↦ cc (rw (e, f) at h)
  ]
]

module _ (value : Bytes → Option Bytes) where
  expand_part :
      (fuel : ℕ) (text name rest : Bytes)
      → IsPart (text, name)
      → expand value (suc fuel) (text ++ (open_mark ++ (name ++ (close_mark ++ rest))))
        ≡ text ++ (shown (value name) name ++ expand value fuel rest)
  unfolding expand
  expand_part fuel text name rest h = ground (
    arith,
    find_pair-append b'{' text (name ++ (close_mark ++ rest)) h.0,
    find_pair-append b'}' name rest h.1,
  )

  expand_plain :
      (fuel : ℕ) (tail : Bytes) → find_pair b'{' tail ≡ none → expand value fuel tail ≡ tail
  unfolding expand
  expand_plain zero tail h = refl
  expand_plain (suc fuel) tail h = ground arith

  expand-page :
      (parts : List Part) (tail : Bytes) (fuel : ℕ)
      → length (page_of parts tail) ≤ fuel
      → All IsPart parts
      → find_pair b'{' tail ≡ none
      → expand value fuel (page_of parts tail) ≡ filled value parts tail
  expand-page [] tail fuel h p n = expand_plain fuel tail n
  expand-page ((text, name) ∷ rest) tail zero h p n = absurd (
      omega (
        arith,
        length-shorter value text name (page_of rest tail) (page_of ((text, name) ∷ rest) tail)
            refl,
      ))
  expand-page ((text, name) ∷ rest) tail (suc fuel) h p n =
      expand_part fuel text name (page_of rest tail) p.0
      ∙ ap (λ t. text ++ (shown (value name) name ++ t))
          (expand-page rest tail fuel
            (omega (
              arith,
              length-shorter value text name (page_of rest tail)
                  (page_of ((text, name) ∷ rest) tail) refl,
            ))
            p.1 n)

  -- A page of texts and names, with a last text that has no "{{", is rendered to the same page with
  -- each name replaced by its value, or left with its braces where it has none. Conditions: no text
  -- has a "{{" or ends in "{", no name has a "}}" or ends in "}", the result is below 2 ^ 63 bytes,
  -- and memory is granted.
  pub render-template :
      (parts : List Part) (tail : Bytes)
      → All IsPart parts
      → find_pair b'{' tail ≡ none
      → length (filled value parts tail) < 2 ^ 63
      → (cap : ℕ) × (render (λ n. true) value (page_of parts tail)
          ≡ ok (record { bytes = filled value parts tail; cap = cap }))
  unfolding render
  render-template parts tail p n b =
      let page = page_of parts tail in
      let e = expand-page parts tail (length page) (omega arith) p n in
      let (cap, done) =
        render_from-expand value (length page) page empty (omega arith)
          (omega (arith, ap (length {A = ℕ}) e)) in
      (cap, done ∙ ap (λ t. ok (record { bytes = t; cap = cap })) e)

  expand_unknown :
      ((name : Bytes) → value name ≡ none)
      → (fuel : ℕ) (html : Bytes) → expand value fuel html ≡ html
  expand_unknown u zero html = unfold expand in refl
  expand_unknown u (suc fuel) html = cases (round value html) (λ rest. expand_unknown u fuel rest)
    where
      cases :
          Round value html
          → ((rest : Bytes) → expand value fuel rest ≡ rest)
          → expand value (suc fuel) html ≡ html
      cases (last e r) ih = e fuel
      cases (more text name rest shape e r) ih =
          e fuel
          ∙ ap (λ t. text ++ (shown (value name) name ++ t)) (ih rest)
          ∙ ap (λ v. text ++ (shown v name ++ rest)) (u name)
          ∙ ap (λ t. text ++ (open_mark ++ t)) (append_assoc name close_mark rest)
          ∙ sym shape

  -- Where no name has a value, every page is sent byte for byte as it is, whatever braces it has.
  -- Conditions: it is below 2 ^ 63 bytes, and memory is granted.
  pub render-unknown :
      (html : Bytes)
      → ((name : Bytes) → value name ≡ none)
      → length html < 2 ^ 63
      → (cap : ℕ) × (render (λ n. true) value html ≡ ok (record { bytes = html; cap = cap }))
  unfolding render
  render-unknown html u b =
      let e = expand_unknown u (length html) html in
      let (cap, done) =
        render_from-expand value (length html) html empty (omega arith)
          (omega (arith, ap (length {A = ℕ}) e)) in
      (cap, done ∙ ap (λ t. ok (record { bytes = t; cap = cap })) e)
