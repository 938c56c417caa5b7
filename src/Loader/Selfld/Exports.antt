-- ===== src/Loader/Selfld/Exports.antt =====
-- The export table: a later object, and a later row of one object, hides an earlier one.
use selfdb.Base.{
  ℕ, ◌+◌, ◌≡◌, ◌≢◌, refl, ◌∙◌, if◌then◌else◌, List, [], ◌∷◌, Option, none, some, Bytes, equal,
  equal_iff, arith,
}
use selfdb.Base.Word.{word}
use selfdb.Loader.Selfld.{Exports, export_add, export_find, publish_one, publish}

-- The value of the last row that exports `name`.
abbrev pub last_export : Bytes → List (Option Bytes × ℕ) → Option ℕ
last_export name [] = none
last_export name ((none, value) ∷ rest) = last_export name rest
last_export name ((some n, value) ∷ rest) =
    let here : Option ℕ = if equal n name then some value else none in
    elim (last_export name rest) [ some w ↦ some w | none ↦ here ]

-- The address that `name` gets from an object's rows, or else from what was there before.
abbrev pub address_or : ℕ → Option ℕ → ℕ → ℕ
address_or bias none before = before
address_or bias (some v) before = word (bias + v)

publish_one-find :
    (bias value : ℕ) (n name : Bytes) (syms : Exports)
    → name ≢ []
    → export_find name (publish_one bias (some n) value syms)
      ≡ address_or bias (if equal n name then some value else none) (export_find name syms)
unfolding publish_one export_add export_find
publish_one-find bias value [] name syms h = ground (arith, equal_iff [] name)
publish_one-find bias value (c ∷ cs) name syms h = ground arith

-- Publishing an object's rows gives each name the address of the last row that exports it, moved by
-- the object's load bias, and leaves every name that no row exports as it was.
pub export_find-publish :
    (bias : ℕ) (rows : List (Option Bytes × ℕ)) (name : Bytes) (syms : Exports)
    → name ≢ []
    → export_find name (publish bias rows syms)
      ≡ address_or bias (last_export name rows) (export_find name syms)
unfolding publish
export_find-publish bias [] name syms h = refl
export_find-publish bias ((none, value) ∷ rest) name syms h =
    export_find-publish bias rest name _ h ∙ unfold publish_one in refl
export_find-publish bias ((some n, value) ∷ rest) name syms h =
    export_find-publish bias rest name _ h
    ∙ ground (arith, publish_one-find bias value n name syms h)
