-- ===== src/Server/Request/Head.antt =====
-- What the first loop of `read_request` of examples/server/server.c has read.
use selfdb.Base.{
  ℕ, zero, suc, ◌+◌, ◌-◌, ◌≤◌, ◌<◌, ◌≡◌, ◌⊎◌, inl, inr, refl, sym, ap, ◌∙◌, ltb, List, [], ◌∷◌,
  ◌++◌, append-nil, append_assoc, Bytes, length, length-append, Outcome, ok, fail, arith, Bool,
  true, false, Option, none, some,
}
use selfdb.Server.Http.{crlf}
use selfdb.Server.Request.{Libc, read_head, max_header_bytes}
use selfdb.Server.Request.Body.{delivered}

module _ (libc : Libc) (read : ℕ → ℕ → Bytes) (fits : (k n : ℕ) → length (read k n) ≤ n) where
  -- The head in whole: what the calls gave, up to some byte behind the blank line.
  pub record Found (k : ℕ) (first head : Bytes) (blank k' : ℕ) : Type 0 where
    pub sizes : List ℕ
    pub bytes : head ≡ first ++ delivered read k sizes
    pub calls : k' ≡ k + length sizes
    pub blank_line : libc.strstr head (crlf ++ crlf) ≡ some blank
    pub bound : length head ≤ max_header_bytes

  abbrev pub Finds : ℕ → Bytes → Outcome (Bytes × ℕ × ℕ) → Type 0
  Finds k first o =
      (o ≡ fail)
      ⊎ ((head : Bytes) × (blank : ℕ) × (k' : ℕ) × (o ≡ ok (head, blank, k'))
          × Found k first head blank k')

  -- A call has given `c ∷ cs`, and the search answers `o`.
  read_head_search :
      (k : ℕ) (head : Bytes) (next : Bytes → Outcome (Bytes × ℕ × ℕ)) (c : ℕ) (cs : Bytes)
      (o : Option ℕ)
      → read k (max_header_bytes - length head) ≡ c ∷ cs
      → length (head ++ c ∷ cs) ≤ max_header_bytes
      → libc.strstr (head ++ c ∷ cs) (crlf ++ crlf) ≡ o
      → Finds (k + 1) (head ++ c ∷ cs) (next (c ∷ cs))
      → Finds k head
          (elim o [ none ↦ next (c ∷ cs) | some blank ↦ ok (head ++ c ∷ cs, blank, k + 1) ])
  unfolding delivered
  read_head_search k head next c cs (some blank) r l e ih = inr (
    head ++ c ∷ cs,
    blank,
    k + 1,
    refl,
    record {
      sizes = (max_header_bytes - length head) ∷ [];
      bytes = ap (λ z. head ++ z) (sym (append-nil (c ∷ cs)) ∙ ap (λ z. z ++ []) (sym r));
      calls = refl;
      blank_line = e;
      bound = l;
    },
  )
  read_head_search k head next c cs none r l e (inl f) = inl f
  read_head_search k head next c cs none r l e (inr (whole, blank, k', e', found)) = inr (
    whole,
    blank,
    k',
    e',
    record {
      sizes = (max_header_bytes - length head) ∷ found.sizes;
      bytes =
          found.bytes
          ∙ append_assoc head (c ∷ cs) (delivered read (k + 1) found.sizes)
          ∙ ap (λ z. head ++ (z ++ delivered read (k + 1) found.sizes)) (sym r);
      calls = omega (arith, found.calls);
      blank_line = found.blank_line;
      bound = found.bound;
    },
  )

  read_head_round :
      (k : ℕ) (head : Bytes) (next : Bytes → Outcome (Bytes × ℕ × ℕ)) (b : Bool) (chunk : Bytes)
      → read k (max_header_bytes - length head) ≡ chunk
      → length (head ++ chunk) ≤ max_header_bytes
      → ((c : ℕ) (cs : Bytes) → chunk ≡ c ∷ cs → Finds (k + 1) (head ++ chunk) (next chunk))
      → Finds k head (elim b [
        | false ↦ fail
        | true ↦ elim chunk [
          | [] ↦ fail
          | c ∷ cs ↦ elim (libc.strstr (head ++ c ∷ cs) (crlf ++ crlf)) [
            | none ↦ next (c ∷ cs)
            | some blank ↦ ok (head ++ c ∷ cs, blank, k + 1)
          ]
        ]
      ])
  read_head_round k head next false chunk r l ih = inl refl
  read_head_round k head next true [] r l ih = inl refl
  read_head_round k head next true (c ∷ cs) r l ih =
      read_head_search k head next c cs (libc.strstr (head ++ c ∷ cs) (crlf ++ crlf)) r l refl
        (ih c cs refl)

  pub read_head_lem :
      (fuel k : ℕ) (head : Bytes)
      → length head ≤ max_header_bytes
      → max_header_bytes < fuel + length head
      → Finds k head (read_head libc read fuel k head)
  unfolding read_head
  read_head_lem zero k head h f = absurd (omega (arith, h, f))
  read_head_lem (suc fuel) k head h f =
      let n = max_header_bytes - length head in
      let l = length-append head (read k n) in
      let le = fits k n in
      let bound : length (head ++ read k n) ≤ max_header_bytes = omega (arith, l, le, h) in
      read_head_round k head (λ chunk. read_head libc read fuel (k + 1) (head ++ chunk))
        (ltb (length head) max_header_bytes) (read k n) refl bound
        (λ c cs e.
          let pos : length (read k n) ≡ suc (length cs) = ap length e in
          read_head_lem fuel (k + 1) (head ++ read k n) bound (omega (arith, l, pos, f)))
