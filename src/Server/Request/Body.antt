-- ===== src/Server/Request/Body.antt =====
-- What `read_request` of examples/server/server.c has read when it succeeds, and that it ends.
use selfdb.Base.{
  ℕ, zero, suc, ◌+◌, ◌-◌, ◌≤◌, ◌<◌, ◌≡◌, ◌⊎◌, inl, inr, refl, sym, ap, ◌∙◌, ltb, List, [], ◌∷◌,
  ◌++◌, append-nil, append_assoc, Bytes, length, length-append, Outcome, ok, fail, arith, Bool,
  true, false,
}
use selfdb.Server.Request.{Libc, read_body}

-- What calls of `read` for the sizes `ns` give, from call `k` on.
unfoldable pub delivered : (ℕ → ℕ → Bytes) → ℕ → List ℕ → Bytes
delivered read k [] = []
delivered read k (n ∷ ns) = read k n ++ delivered read (k + 1) ns

module _ (read : ℕ → ℕ → Bytes) (fits : (k n : ℕ) → length (read k n) ≤ n) where
  -- The body is complete: `want` bytes, the first ones and then what the calls gave.
  pub record Complete (k want : ℕ) (first body : Bytes) : Type 0 where
    pub count : length body ≡ want
    pub sizes : List ℕ
    pub bytes : body ≡ first ++ delivered read k sizes

  -- A reading that ends as it should: the error exit or the complete body.
  abbrev pub Reads : ℕ → ℕ → Bytes → Outcome Bytes → Type 0
  Reads k want first o = (o ≡ fail) ⊎ ((body : Bytes) × (o ≡ ok body) × Complete k want first body)

  read_body_round :
      (k want : ℕ) (body : Bytes) (next : Bytes → Outcome Bytes) (b : Bool) (chunk : Bytes)
      → length body ≤ want
      → ltb (length body) want ≡ b
      → read k (want - length body) ≡ chunk
      → ((c : ℕ) (cs : Bytes) → chunk ≡ c ∷ cs → Reads (k + 1) want (body ++ chunk) (next chunk))
      → Reads k want body
          (elim b [ false ↦ ok body | true ↦ elim chunk [ [] ↦ fail | c ∷ cs ↦ next (c ∷ cs) ] ])
  unfolding delivered
  read_body_round k want body next false chunk h e r ih =
      inr (body, refl, record { count = ground arith; sizes = []; bytes = sym (append-nil body) })
  read_body_round k want body next true [] h e r ih = inl refl
  read_body_round k want body next true (c ∷ cs) h e r ih = elim (ih c cs refl) [
    | inl f ↦ inl f
    | inr (whole, e', done) ↦ inr (
      whole,
      e',
      record {
        count = done.count;
        sizes = (want - length body) ∷ done.sizes;
        bytes =
            done.bytes
            ∙ append_assoc body (c ∷ cs) (delivered read (k + 1) done.sizes)
            ∙ ap (λ z. body ++ (z ++ delivered read (k + 1) done.sizes)) (sym r);
      },
    )
  ]

  pub read_body_lem :
      (libc : Libc) (fuel k want : ℕ) (body : Bytes)
      → length body ≤ want
      → want < fuel + length body
      → Reads k want body (read_body libc read fuel k want body)
  unfolding read_body
  read_body_lem libc zero k want body h f = absurd (omega (arith, h, f))
  read_body_lem libc (suc fuel) k want body h f =
      let n = want - length body in
      read_body_round k want body (λ chunk. read_body libc read fuel (k + 1) want (body ++ chunk))
        (ltb (length body) want) (read k n) h refl refl
        (λ c cs e.
          let l = length-append body (read k n) in
          let le = fits k n in
          let pos : length (read k n) ≡ suc (length cs) = ap length e in
          read_body_lem libc fuel (k + 1) want (body ++ read k n) (omega (arith, l, le, h))
            (omega (arith, l, pos, f)))
