-- ===== src/Server/Buffer.antt =====
-- examples/server/server.c, `struct buffer` and `buf_append`.
use selfdb.Base.{
  ℕ, zero, suc, ◌+◌, ◌*◌, ◌^◌, ◌≤◌, ◌<◌, ◌==◌, ◌≡◌, ◌⊎◌, inl, inr, ltb, leb, if◌then◌else◌, Bool,
  true, [], ◌++◌, Bytes, length, length-append, Outcome, ok, ◌>>◌, defined, arith, Bool-cases,
}
use selfdb.Base.Word.{word}

-- `data`, without the closing NUL, and `cap`; `len` is the length of `data`.
pub record Buffer : Type 0 where
  pub bytes : Bytes
  pub cap : ℕ

abbrev pub empty : Buffer
empty = record { bytes = []; cap = 0 }

-- `while (want < need) want *= 2;`, for as many rounds as the fuel says.
unfoldable pub double_until : ℕ → ℕ → ℕ → ℕ
double_until zero want need = want
double_until (suc fuel) want need =
    let more = double_until fuel (word (want * 2)) need in if ltb want need then more else want

unfoldable pub wanted : ℕ → ℕ → ℕ
wanted cap need = double_until need (if cap == 0 then 1024 else cap) need

-- `memcpy` and the NUL behind it, inside `cap` bytes.
unfoldable pub put : Bytes → Buffer → Outcome Buffer
put bs b = do
  defined (leb (length b.bytes + length bs + 1) b.cap)
  ok (record { bytes = b.bytes ++ bs; cap = b.cap })

-- `realloc n` says whether n bytes are granted. Where they are not, the buffer stays as it was.
unfoldable pub buf_append : (ℕ → Bool) → Bytes → Buffer → Outcome Buffer
buf_append realloc bs b =
    let need = length b.bytes + length bs + 1 in
    let want = wanted b.cap need in
    if ltb b.cap need
    then if realloc want then put bs (record { bytes = b.bytes; cap = want }) else ok b
    else put bs b

double_until-ge :
    (fuel want need : ℕ)
    → 0 < want
    → need ≤ want + fuel
    → need ≤ 2 ^ 63
    → need ≤ double_until fuel want need
unfolding double_until
double_until-ge zero want need p h b = omega arith
double_until-ge (suc fuel) want need p h b = elim (Bool-cases (ltb want need)) [
  | inl less ↦ rw less (double_until-ge fuel (word (want * 2)) need (ground arith) (ground arith) b)
  | inr done ↦ rw done (ground arith)
]

pub wanted-ge : (cap need : ℕ) → need ≤ 2 ^ 63 → need ≤ wanted cap need
unfolding wanted
wanted-ge cap need b =
    double_until-ge need (if cap == 0 then 1024 else cap) need (ground arith) (ground arith) b

put-ok :
    (bs : Bytes) (b : Buffer)
    → length b.bytes + length bs + 1 ≤ b.cap
    → put bs b ≡ ok (record { bytes = b.bytes ++ bs; cap = b.cap })
unfolding put
put-ok bs b h = ground arith

-- An append never writes outside the block: it appends all its bytes, with room left for the NUL, or
-- leaves the buffer as it was. Condition: the bytes and the NUL come to 2 ^ 63 at most.
pub buf_append_lem :
    (realloc : ℕ → Bool) (bs : Bytes) (b : Buffer)
    → length b.bytes + length bs + 1 ≤ 2 ^ 63
    → ((cap : ℕ) × (buf_append realloc bs b ≡ ok (record { bytes = b.bytes ++ bs; cap = cap }))
        × (length (b.bytes ++ bs) < cap))
      ⊎ (buf_append realloc bs b ≡ ok b)
unfolding buf_append
buf_append_lem realloc bs b h =
    let need = length b.bytes + length bs + 1 in
    let want = wanted b.cap need in
    let enough = wanted-ge b.cap need h in
    elim (Bool-cases (ltb b.cap need)) [
      | inl small ↦ elim (Bool-cases (realloc want)) [
        | inl granted ↦ inl (
          want,
          rw (small, granted) (put-ok bs (record { bytes = b.bytes; cap = want }) enough),
          omega (arith, length-append {0} b.bytes bs, enough),
        )
        | inr refused ↦ inr (rw (small, refused))
      ]
      | inr large ↦
          inl
            (b.cap, rw large (put-ok bs b (ground arith)), ground (arith, length-append b.bytes bs))
    ]

-- Where memory is always granted, an append appends.
pub buf_append-granted :
    (bs : Bytes) (b : Buffer)
    → length b.bytes + length bs + 1 ≤ 2 ^ 63
    → (cap : ℕ) × (buf_append (λ n. true) bs b ≡ ok (record { bytes = b.bytes ++ bs; cap = cap }))
unfolding buf_append
buf_append-granted bs b h =
    let need = length b.bytes + length bs + 1 in
    let want = wanted b.cap need in
    elim (Bool-cases (ltb b.cap need)) [
      | inl small ↦ (
        want,
        rw small (put-ok bs (record { bytes = b.bytes; cap = want }) (wanted-ge b.cap need h)),
      )
      | inr large ↦ (b.cap, rw large (put-ok bs b (ground arith)))
    ]

-- An append ends, and adds no more than its bytes.
pub buf_append-ends :
    (realloc : ℕ → Bool) (bs : Bytes) (b : Buffer)
    → length b.bytes + length bs + 1 ≤ 2 ^ 63
    → (b' : Buffer) × (buf_append realloc bs b ≡ ok b')
      × (length b'.bytes ≤ length b.bytes + length bs)
buf_append-ends realloc bs b h = elim (buf_append_lem realloc bs b h) [
  | inl (cap, e, l) ↦
      (record { bytes = b.bytes ++ bs; cap = cap }, e, omega (arith, length-append {0} b.bytes bs))
  | inr e ↦ (b, e, omega arith)
]
