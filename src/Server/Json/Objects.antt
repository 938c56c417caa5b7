-- ===== src/Server/Json/Objects.antt =====
-- The texts that the JSON endpoints of examples/server/server.c send.
use selfdb.Base.{
  ℕ, ◌+◌, ◌*◌, ◌^◌, ◌≤◌, ◌<◌, ◌==◌, ◌≡◌, refl, ltb, if◌then◌else◌, Bool, true, false, List, [], ◌∷◌,
  Option, none, some, Bytes, codes, length, take, ok, arith, Bool-cases, inl, inr, length-take,
  >>=-step,
}
use selfdb.Server.Buffer.{Buffer, empty, buf_append-ends}
use selfdb.Server.Render.{TemplateVar}
use selfdb.Server.Json.{
  line_size, stats_field, table_entry, buf_printf, stats_from, tables_from, stats_json, tables_json,
}

-- A formatted append ends, and never adds more than 1023 bytes.
pub buf_printf-ends :
    (realloc : ℕ → Bool) (text : Bytes) (b : Buffer)
    → length b.bytes < 2 ^ 62
    → (b' : Buffer) × (buf_printf realloc text b ≡ ok b')
      × (length b'.bytes < length b.bytes + line_size)
unfolding buf_printf
buf_printf-ends realloc text b h = elim (Bool-cases (length text == 0)) [
  | inl none_there ↦ (b, rw none_there refl, omega arith)
  | inr some_there ↦
      let cut = if ltb (length text) line_size then text else take 1023 text in
      let small : length cut < 1024 = capped text in
      let (b', e, l) = buf_append-ends realloc cut b (omega (arith, h, small)) in
      (b', rw some_there e, omega (arith, l, small))
]
  where
    capped :
        (text : Bytes) → length (if ltb (length text) 1024 then text else take 1023 text) < 1024
    capped text = elim (Bool-cases (ltb (length text) 1024)) [
      | inl short ↦ rw short (ground arith)
      | inr long ↦ rw long (omega (arith, length-take {0} 1023 text))
    ]

pub stats_from-ends :
    (realloc : ℕ → Bool) (value : TemplateVar → Option Bytes) (first : Bool) (vs : List TemplateVar)
    (b : Buffer)
    → length b.bytes + line_size * length vs < 2 ^ 62
    → (b' : Buffer) × (stats_from realloc value first vs b ≡ ok b')
      × (length b'.bytes ≤ length b.bytes + line_size * length vs)
unfolding stats_from
stats_from-ends realloc value first [] b h = (b, refl, omega arith)
stats_from-ends realloc value first (v ∷ vs) b h =
    let (b1, e1, l1) =
      buf_printf-ends realloc (stats_field first v (value v)) b (omega (arith, h)) in
    let (b2, e2, l2) = stats_from-ends realloc value false vs b1 (omega (arith, h, l1)) in
    (b2, >>=-step _ e1 e2, omega (arith, l1, l2))

pub tables_from-ends :
    (realloc : ℕ → Bool) (rows : Bytes → Option Bytes) (first : Bool) (names : List (Option Bytes))
    (b : Buffer)
    → length b.bytes + line_size * length names < 2 ^ 62
    → (b' : Buffer) × (tables_from realloc rows first names b ≡ ok b')
      × (length b'.bytes ≤ length b.bytes + line_size * length names)
unfolding tables_from
tables_from-ends realloc rows first [] b h = (b, refl, omega arith)
tables_from-ends realloc rows first (none ∷ names) b h =
    let (b2, e2, l2) = tables_from-ends realloc rows first names b (omega (arith, h)) in
    (b2, e2, omega (arith, l2))
tables_from-ends realloc rows first (some name ∷ names) b h =
    let (b1, e1, l1) =
      buf_printf-ends realloc (table_entry first name (rows name)) b (omega (arith, h)) in
    let (b2, e2, l2) = tables_from-ends realloc rows false names b1 (omega (arith, h, l1)) in
    (b2, >>=-step _ e1 e2, omega (arith, l1, l2))

pub stats_json-ends :
    (realloc : ℕ → Bool) (value : TemplateVar → Option Bytes) (vars : List TemplateVar)
    (uptime : Bytes)
    → length vars < 2 ^ 50
    → (b : Buffer) × (stats_json realloc value vars uptime ≡ ok b)
unfolding stats_json
stats_json-ends realloc value vars uptime h =
    let (b1, e1, l1) = buf_append-ends realloc (codes "{") empty (omega arith) in
    let (b2, e2, l2) = stats_from-ends realloc value true vars b1 (omega (arith, h, l1)) in
    let (b3, e3, l3) = buf_printf-ends realloc _ b2 (omega (arith, h, l1, l2)) in
    (b3, >>=-step _ e1 (>>=-step _ e2 e3))

pub tables_json-ends :
    (realloc : ℕ → Bool) (rows : Bytes → Option Bytes) (names : List (Option Bytes))
    → length names < 2 ^ 50
    → (b : Buffer) × (tables_json realloc rows names ≡ ok b)
unfolding tables_json
tables_json-ends realloc rows names h =
    let (b1, e1, l1) = buf_append-ends realloc (codes "[") empty (omega arith) in
    let (b2, e2, l2) = tables_from-ends realloc rows true names b1 (omega (arith, h, l1)) in
    let (b3, e3, l3) = buf_append-ends realloc (codes "]") b2 (omega (arith, h, l1, l2)) in
    (b3, >>=-step _ e1 (>>=-step _ e2 e3))
