-- ===== src/Tests/Server.antt =====
-- examples/server/server.c at short pages and names.
use selfdb.Base.{
  ℕ, ◌^◌, ◌<◌, ◌≡◌, ◌⊎◌, refl, true, false, List, [], ◌∷◌, Option, none, some, String, Bytes, codes,
  equal, ok, arith, All, length,
}
use selfdb.Server.Buffer.{Buffer, double_until, wanted, put, buf_append, buf_append_lem}
use selfdb.Server.Button.{
  allowed, collect, max_button_bytes, sanitize_button, sanitize_button-IsIdentifier,
}
use selfdb.Server.Render.{find_pair, value_of, template_vars, render_from, render, render_page}
use selfdb.Server.Render.Template.{Part, IsPart, page_of, filled, render-template}

-- Every query answers 7.
abbrev seven : String → Option Bytes
seven sql = some (codes "7")

abbrev demo_value : Bytes → Option Bytes
demo_value = value_of seven template_vars

abbrev demo_parts : List Part
demo_parts = (codes "<p>", codes "visits") ∷ (codes " of ", codes "vists") ∷ []

abbrev demo_tail : Bytes
demo_tail = codes "</p>"

demo_page_run :
    render_page (λ n. true) seven (codes "<p>{{visits}} of {{vists}}</p>")
    ≡ ok (record { bytes = codes "<p>7 of {{vists}}</p>"; cap = 1024 })
unfolding render_page render render_from find_pair value_of equal buf_append wanted double_until put
demo_page_run = refl

demo_parts-IsPart : All IsPart demo_parts
unfolding find_pair
demo_parts-IsPart = ((refl, refl), ((refl, refl), tt))

demo_tail_plain : find_pair b'{' demo_tail ≡ none
unfolding find_pair
demo_tail_plain = refl

demo_filled : length (filled demo_value demo_parts demo_tail) < 2 ^ 63
unfolding value_of equal
demo_filled = omega arith

render-template_example :
    (cap : ℕ) × (render (λ n. true) demo_value (page_of demo_parts demo_tail)
      ≡ ok (record { bytes = filled demo_value demo_parts demo_tail; cap = cap }))
render-template_example =
    render-template demo_value demo_parts demo_tail demo_parts-IsPart demo_tail_plain demo_filled

abbrev small : Buffer
small = record { bytes = codes "abc"; cap = 4 }

buf_append_lem_example :
    ((cap : ℕ) × (buf_append (λ n. false) (codes "de") small
        ≡ ok (record { bytes = codes "abcde"; cap = cap }))
      × (5 < cap))
    ⊎ (buf_append (λ n. false) (codes "de") small ≡ ok small)
buf_append_lem_example = buf_append_lem (λ n. false) (codes "de") small (omega arith)

button_run : sanitize_button (codes "<b>Go!</b>") ≡ codes "bGob"
unfolding sanitize_button collect allowed
button_run = refl

sanitize_button-IsIdentifier_example :
    All (λ c. allowed c ≡ true) (sanitize_button (codes "<!>"))
    × (0 < length (sanitize_button (codes "<!>")))
    × (length (sanitize_button (codes "<!>")) < max_button_bytes)
sanitize_button-IsIdentifier_example = sanitize_button-IsIdentifier (codes "<!>")
