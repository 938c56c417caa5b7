-- ===== src/Server/Http/Send.antt =====
-- What reaches the client from `send_all` and `respond` of examples/server/server.c.
use selfdb.Base.{
  ℕ, zero, suc, ◌+◌, ◌≤◌, ◌<◌, ◌==◌, ◌≡◌, ◌⊎◌, inl, inr, refl, sym, ap, ◌∙◌, leb, if◌then◌else◌,
  true, false, [], ◌∷◌, ◌++◌, append-nil, append_assoc, Bytes, length, take, drop, take-append-drop,
  length-drop, ok, fault, defined, arith, Bool-cases, >>=-step, le→leb, lt→ltb, leb→le, ◌↔◌,
}
use selfdb.Server.Http.{
  Socket, Printer, head_text, printed, head_size, send_from, send_all, respond,
}

refused : (n : ℕ) → (n == 0) ≡ true → n ≡ 0
refused n e = ground arith

length-drop_taken :
    (n fuel c : ℕ) (cs : Bytes)
    → (n == 0) ≡ false
    → length (c ∷ cs) ≤ suc fuel
    → length (drop n (c ∷ cs)) ≤ fuel
length-drop_taken n fuel c cs e h = let l = length-drop n (c ∷ cs) in ground arith

module _ (write : ℕ → ℕ → ℕ) where
  -- The bytes `done` of `bytes` were taken, in order; what is left was refused by a call.
  pub record Sends (bytes : Bytes) (s s' : Socket) : Type 0 where
    pub done : Bytes
    pub left : Bytes
    pub appended : s'.sent ≡ s.sent ++ done
    pub prefix : done ++ left ≡ bytes
    pub finished : (left ≡ []) ⊎ ((k : ℕ) × (k < s'.calls) × (write k (length left) ≡ 0))

  send_from_lem :
      (fuel : ℕ) (bytes : Bytes) (s : Socket)
      → length bytes ≤ fuel
      → (s' : Socket) × (send_from write fuel bytes s ≡ ok s') × Sends bytes s s'
  unfolding send_from
  send_from_lem zero [] s h = (
    s,
    refl,
    record {
      done = [];
      left = [];
      appended = sym (append-nil s.sent);
      prefix = refl;
      finished = inl refl;
    },
  )
  send_from_lem zero (c ∷ cs) s h = absurd (omega (arith, h))
  send_from_lem (suc fuel) [] s h = (
    s,
    refl,
    record {
      done = [];
      left = [];
      appended = sym (append-nil s.sent);
      prefix = refl;
      finished = inl refl;
    },
  )
  send_from_lem (suc fuel) (c ∷ cs) s h =
      let n = write s.calls (length (c ∷ cs)) in
      elim (Bool-cases (n == 0)) [
        | inl zero_n ↦ (
          record { calls = s.calls + 1; sent = s.sent },
          rw zero_n refl,
          record {
            done = [];
            left = c ∷ cs;
            appended = sym (append-nil s.sent);
            prefix = refl;
            finished = inr (s.calls, omega arith, refused n zero_n);
          },
        )
        | inr some_n ↦
            let (s', e, r) =
              send_from_lem fuel (drop n (c ∷ cs))
                (record { calls = s.calls + 1; sent = s.sent ++ take n (c ∷ cs) })
                (length-drop_taken n fuel c cs some_n h) in
            (
              s',
              rw some_n e,
              record {
                done = take n (c ∷ cs) ++ r.done;
                left = r.left;
                appended = r.appended ∙ append_assoc s.sent (take n (c ∷ cs)) r.done;
                prefix =
                    append_assoc (take n (c ∷ cs)) r.done r.left
                    ∙ ap (λ z. take n (c ∷ cs) ++ z) r.prefix
                    ∙ take-append-drop n (c ∷ cs);
                finished = r.finished;
              },
            )
      ]

  left_nil :
      (left : Bytes) (calls : ℕ)
      → ((k n : ℕ) → 0 < n → 0 < write k n)
      → (left ≡ []) ⊎ ((k : ℕ) × (k < calls) × (write k (length left) ≡ 0))
      → left ≡ []
  left_nil [] calls live f = refl
  left_nil (c ∷ cs) calls live (inl e) = e
  left_nil (c ∷ cs) calls live (inr (k, l, e)) =
      let p = live k (length (c ∷ cs)) (omega arith) in absurd (omega (arith, p, e))

  -- Whatever the calls of `write` answer, `send_all` ends, and what it has sent is a beginning of
  -- the bytes, in order: all of them, or a call has refused what is left.
  pub send_all-Sends :
      (bytes : Bytes) (s : Socket)
      → (s' : Socket) × (send_all write bytes s ≡ ok s') × Sends bytes s s'
  unfolding send_all
  send_all-Sends bytes s = send_from_lem (length bytes) bytes s (omega arith)

  send_all_complete :
      ((k n : ℕ) → 0 < n → 0 < write k n)
      → (bytes : Bytes) (s : Socket)
      → (s' : Socket) × (send_all write bytes s ≡ ok s') × (s'.sent ≡ s.sent ++ bytes)
  send_all_complete live bytes s =
      let (s', e, r) = send_all-Sends bytes s in
      let none_left = left_nil r.left s'.calls live r.finished in
      let whole : r.done ≡ bytes =
        sym (append-nil r.done) ∙ ap (λ z. r.done ++ z) (sym none_left) ∙ r.prefix in
      (s', e, r.appended ∙ ap (λ z. s.sent ++ z) whole)

  -- The client gets the head and then the body, in whole and once, where the head fits into its
  -- 511 characters and each call of `write` takes at least one byte.
  pub respond_complete :
      (pr : Printer) (status : ℕ) (mime body : Bytes) (s : Socket)
      → ((k n : ℕ) → 0 < n → 0 < write k n)
      → length (head_text pr status mime (length body)) < head_size
      → (s' : Socket) × (respond write pr status mime body s ≡ ok s')
        × (s'.sent ≡ s.sent ++ (head_text pr status mime (length body) ++ body))
  unfolding respond printed
  respond_complete pr status mime body s live h =
      let text = head_text pr status mime (length body) in
      let fits : leb (length text) head_size ≡ true =
        le→leb (length text) head_size (omega (arith, h)) in
      let (s1, e1, h1) = send_all_complete live text s in
      let (s2, e2, h2) = send_all_complete live body s1 in
      (
        s2,
        >>=-step _ (ap defined fits) (
            >>=-step _
              (ap (λ b. send_all write (if b then text else take 511 text ++ 0 ∷ []) s)
                  (lt→ltb _ _ h)
                ∙ e1)
              e2),
        h2 ∙ ap (λ z. z ++ body) h1 ∙ append_assoc s.sent text body,
      )

  -- `respond` reads past the end of `head` exactly where the text that it asks snprintf for is
  -- longer than the 512 bytes: a long `mime` of a route is enough for that.
  pub respond-fault_iff :
      (pr : Printer) (status : ℕ) (mime body : Bytes) (s : Socket)
      → (respond write pr status mime body s ≡ fault)
        ↔ (head_size < length (head_text pr status mime (length body)))
  unfolding respond
  respond-fault_iff pr status mime body s =
      let text = head_text pr status mime (length body) in
      let (s1, e1, r1) = send_all-Sends (printed text) s in
      let (s2, e2, r2) = send_all-Sends body s1 in
      elim (Bool-cases (leb (length text) head_size)) [
        | inl fits ↦
            let e : respond write pr status mime body s ≡ ok s2 =
              >>=-step _ (ap defined fits) (>>=-step _ e1 e2) in
            (λ f. cc, λ l. absurd (omega (arith, leb→le _ _ fits, l)))
        | inr long ↦ (λ f. ground arith, λ l. rw long refl)
      ]
