-- ===== src/Server/Button.antt =====
-- examples/server/server.c, `sanitize_button`: the name that is stored is a harmless identifier.
use selfdb.Base.{
  ℕ, ◌+◌, ◌-◌, ◌<◌, ◌==◌, ◌≡◌, refl, sym, ◌∙◌, ltb, leb, if◌then◌else◌, Bool, true, ◌&&◌, ◌||◌, [],
  ◌∷◌, ◌++◌, Bytes, codes, length, length-append, All, arith, Bool-cases, inl, inr, append-nil,
  append_assoc,
}

abbrev pub max_button_bytes : ℕ
max_button_bytes = 32

abbrev between : ℕ → ℕ → ℕ → Bool
between lo hi c = leb lo c && leb c hi

-- `isalnum(c) || c == '-' || c == '_'`, in the C locale
unfoldable pub allowed : ℕ → Bool
allowed c =
    between b'0' b'9' c || between b'A' b'Z' c || between b'a' b'z' c || c == b'-' || c == b'_'

-- The loop, with `out` written so far: it stops at the end of the input, or when `out` is full.
unfoldable pub collect : Bytes → Bytes → Bytes
collect [] out = out
collect (c ∷ rest) out =
    let more = collect rest (if allowed c then out ++ c ∷ [] else out) in
    if ltb (length out) (max_button_bytes - 1) then more else out

abbrev pub default_button : Bytes
default_button = codes "press"

unfoldable pub sanitize_button : Bytes → Bytes
sanitize_button raw = let out = collect raw [] in if length out == 0 then default_button else out

abbrev pub IsIdentifier : Bytes → Type 0
IsIdentifier bs = All (λ c. allowed c ≡ true) bs × (length bs < max_button_bytes)

All-concat :
    (bs : Bytes) (c : ℕ)
    → All (λ x. allowed x ≡ true) bs
    → allowed c ≡ true
    → All (λ x. allowed x ≡ true) (bs ++ c ∷ [])
All-concat [] c h k = (k, tt)
All-concat (b ∷ bs) c h k = (h.0, All-concat bs c h.1 k)

collect-IsIdentifier : (raw out : Bytes) → IsIdentifier out → IsIdentifier (collect raw out)
unfolding collect
collect-IsIdentifier [] out h = h
collect-IsIdentifier (c ∷ rest) out h = elim (Bool-cases (ltb (length out) 31)) [
  | inr full ↦ rw full h
  | inl space ↦ rw space (elim (Bool-cases (allowed c)) [
    | inl good ↦
        rw good
          (collect-IsIdentifier rest (out ++ c ∷ []) (All-concat out c h.0 good, longer space))
    | inr bad ↦ rw bad (collect-IsIdentifier rest out h)
  ])
]
  where
    longer : ltb (length out) 31 ≡ true → length (out ++ c ∷ []) < 32
    longer e = ground (arith, length-append out (c ∷ []))

allowed-default : All (λ c. allowed c ≡ true) default_button
unfolding allowed
allowed-default = (refl, (refl, (refl, (refl, (refl, tt)))))

-- Whatever the client sends, the name that is stored is not empty, fits the 32 bytes with its NUL,
-- and has only letters, digits, `-` and `_`.
pub sanitize_button-IsIdentifier :
    (raw : Bytes)
    → All (λ c. allowed c ≡ true) (sanitize_button raw)
      × (0 < length (sanitize_button raw))
      × (length (sanitize_button raw) < max_button_bytes)
unfolding sanitize_button
sanitize_button-IsIdentifier raw = elim (Bool-cases (length (collect raw []) == 0)) [
  | inl none ↦ rw none (allowed-default, omega arith, omega arith)
  | inr some ↦ rw some (
    (collect-IsIdentifier raw [] (tt, omega arith)).0,
    ground arith,
    (collect-IsIdentifier raw [] (tt, omega arith)).1,
  )
]

collect_same :
    (raw out : Bytes)
    → All (λ c. allowed c ≡ true) raw
    → length out + length raw < max_button_bytes
    → collect raw out ≡ out ++ raw
unfolding collect
collect_same [] out h l = sym (append-nil out)
collect_same (c ∷ rest) out h l =
    rw (h.0, room)
      (collect_same rest (out ++ c ∷ []) h.1 (omega (arith, length-append {0} out (c ∷ [])))
        ∙ append_assoc out (c ∷ []) rest)
  where
    room : ltb (length out) 31 ≡ true
    room = ground arith

-- A name that is harmless already, and not empty, is stored as it is: a second pass changes nothing.
pub sanitize_button-same :
    (raw : Bytes)
    → All (λ c. allowed c ≡ true) raw
    → 0 < length raw
    → length raw < max_button_bytes
    → sanitize_button raw ≡ raw
unfolding sanitize_button
sanitize_button-same raw h p l = ground (arith, collect_same raw [] h (omega arith))
