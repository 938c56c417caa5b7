-- ===== src/Server/Request.antt =====
-- examples/server/server.c, `read_request`: the head up to the blank line, then as much body as
-- Content-Length promises.
pub mod Body
pub mod Head
pub mod Whole
use selfdb.Base.{
  ℕ, zero, suc, ◌+◌, ◌-◌, ◌==◌, ltb, leb, if◌then◌else◌, Bool, true, false, not, [], ◌∷◌, ◌++◌,
  Option, none, some, Bytes, codes, length, take, drop, Outcome, ok, fail, fault, ◌>>=◌, ◌>>◌,
  require, defined,
}
use selfdb.Server.Http.{crlf}

-- The functions of the C library that the code calls. A search gives the offset of the match and
-- does not look past a NUL; `sscanf` is that of "%7s %511s", `none` where it does not convert two
-- words; `strtol` is in base ten, with 0 for a negative number, which the code treats alike.
pub record Libc : Type 0 where
  pub strstr : Bytes → Bytes → Option ℕ
  pub strcasestr : Bytes → Bytes → Option ℕ
  pub sscanf : Bytes → Option (Bytes × Bytes)
  pub strtol : Bytes → ℕ

-- The body's length is `body_len`.
pub record Request : Type 0 where
  pub method : Bytes
  pub path : Bytes
  pub user_agent : Bytes
  pub body : Bytes

abbrev pub max_header_bytes : ℕ
max_header_bytes = 16384

abbrev pub max_body_bytes : ℕ
max_body_bytes = 4096

abbrev pub max_ua_bytes : ℕ
max_ua_bytes = 256

unfoldable pub skip_spaces : Bytes → Bytes
skip_spaces [] = []
skip_spaces (c ∷ cs) = let rest = skip_spaces cs in if c == 32 then rest else c ∷ cs

module _ (libc : Libc) where
  -- The value behind the header's name at `i`, up to the end of its line, as much of it as fits.
  unfoldable pub agent_at : Bytes → Option ℕ → Bytes
  agent_at head none = []
  agent_at head (some i) =
      let ua = skip_spaces (drop (i + 13) head) in
      let len : ℕ = elim (libc.strstr ua crlf) [ none ↦ 0 | some end ↦ end ] in
      take (if ltb (max_ua_bytes - 1) len then max_ua_bytes - 1 else len) ua

  unfoldable pub user_agent : Bytes → Bytes
  user_agent head = agent_at head (libc.strcasestr head (crlf ++ codes "User-Agent:"))

  unfoldable pub content_length : Bytes → ℕ
  content_length head = elim (libc.strcasestr head (crlf ++ codes "Content-Length:")) [
    | none ↦ 0
    | some i ↦ libc.strtol (drop (i + 17) head)
  ]

  -- `read k n` is what the call number k gives for n bytes; [] stands for the end and an error.
  module _ (read : ℕ → ℕ → Bytes) where
    -- The first loop: the head's bytes, the offset of the blank line and the calls so far.
    -- A fault is a loop that the fuel does not finish.
    unfoldable pub read_head : ℕ → ℕ → Bytes → Outcome (Bytes × ℕ × ℕ)
    read_head zero k head = fault
    read_head (suc fuel) k head = elim (ltb (length head) max_header_bytes) [
      | false ↦ fail
      | true ↦ elim (read k (max_header_bytes - length head)) [
        | [] ↦ fail
        | c ∷ cs ↦ elim (libc.strstr (head ++ c ∷ cs) (crlf ++ crlf)) [
          | none ↦ read_head fuel (k + 1) (head ++ c ∷ cs)
          | some blank ↦ ok (head ++ c ∷ cs, blank, k + 1)
        ]
      ]
    ]

    -- The second loop.
    unfoldable pub read_body : ℕ → ℕ → ℕ → Bytes → Outcome Bytes
    read_body zero k want body = fault
    read_body (suc fuel) k want body = elim (ltb (length body) want) [
      | false ↦ ok body
      | true ↦ elim (read k (want - length body)) [
        | [] ↦ fail
        | c ∷ cs ↦ read_body fuel (k + 1) want (body ++ c ∷ cs)
      ]
    ]

    -- From the end of the head on: nothing to read, too much, or `want` bytes, of which the ones
    -- behind the blank line have come already.
    unfoldable pub promised_body : Bytes → ℕ → ℕ → Outcome Bytes
    promised_body head blank k =
        let want = content_length head in
        if want == 0 then ok [] else do
          require (leb want max_body_bytes)
          read_body (want + 1) k want (take want (drop (blank + 4) head))

    unfoldable pub read_request : Outcome Request
    read_request = do
      (head, blank, k) ← read_head (max_header_bytes + 1) 0 []
      (method, path) ← elim (libc.sscanf head) [ none ↦ fail | some words ↦ ok words ]
      body ← promised_body head blank k
      ok (record { method = method; path = path; user_agent = user_agent head; body = body })
