-- ===== src/Loader/Stack.antt =====
-- The initial stack: strings from the top down, and below them argc, argv, envp and the auxiliary
-- vector. `struct stackbuf`, `push_str`, `push_bytes` and the part that the two functions
-- `build_stack` of loader/native.c and loader/selfld.c share.
pub mod Strings
pub mod Vector
use selfdb.Base.{
  ℕ, zero, suc, ◌+◌, ◌-◌, ◌*◌, ◌%◌, ◌^◌, leb, if◌then◌else◌, Bool, ◌&&◌, List, [], ◌∷◌, ◌++◌, Bytes,
  length, Outcome, ok, ◌>>=◌, ◌>>◌, defined,
}
use selfdb.Base.Word.{word, le_bytes}
use selfdb.Base.Memory.{Memory, store}

-- The mapped block begins at `base`; `p` is the cursor, which comes down from the block's end.
pub record Stack : Type 0 where
  pub base : ℕ
  pub p : ℕ
  pub mem : Memory

-- The cursor moves down by the length, and must stay in the block.
unfoldable pub push_bytes : Bytes → Stack → Outcome (ℕ × Stack)
push_bytes bs s = do
  defined (leb (s.base + length bs) s.p)
  ok (
    s.p - length bs,
    record { base = s.base; p = s.p - length bs; mem = store (s.p - length bs) bs s.mem },
  )

-- With the closing NUL.
unfoldable pub push_str : Bytes → Stack → Outcome (ℕ × Stack)
push_str str s = push_bytes (str ++ 0 ∷ []) s

-- One of the two loops over `argv` and `envp`: the strings' addresses in order.
unfoldable pub push_all : List Bytes → Stack → Outcome (List ℕ × Stack)
push_all [] s = ok ([], s)
push_all (str ∷ rest) s = do (q, s1) ← push_str str s; (qs, s2) ← push_all rest s1; ok (q ∷ qs, s2)

-- An entry of the auxiliary vector: its type and its value.
abbrev pub Aux : Type 0
Aux = ℕ × ℕ

abbrev pub aux_words : List Aux → List ℕ
aux_words [] = []
aux_words ((t, v) ∷ rest) = t ∷ v ∷ aux_words rest

-- What the loops write to `v[k++]`.
abbrev pub vector : ℕ → List ℕ → List ℕ → List Aux → List ℕ
vector argc argp envpp aux = argc ∷ (argp ++ (0 ∷ (envpp ++ (0 ∷ aux_words aux))))

abbrev pub words_bytes : List ℕ → Bytes
words_bytes [] = []
words_bytes (w ∷ ws) = le_bytes 8 w ++ words_bytes ws

-- `(p - words * 8) & ~15`
unfoldable pub align_sp : ℕ → ℕ → ℕ
align_sp p words = let sp = word (p + 2 ^ 64 - words * 8) in sp - sp % 16

-- The words are laid at `sp`, which must leave them between the block's start and the strings.
unfoldable pub lay_vector : List ℕ → Stack → Outcome (ℕ × Memory)
lay_vector ws s = do
  let sp = align_sp s.p (length ws)
  defined (leb s.base sp && leb (sp + 8 * length ws) s.p)
  ok (sp, store sp (words_bytes ws) s.mem)
