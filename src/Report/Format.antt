-- ===== src/Report/Format.antt =====
-- report/format.go: the output formats and the parser of their names.
use copyfail_validation.Base.{◌∷◌, ◌++◌, Bool, true, false, ◌≡◌, ◌↔◌, refl, arith, if◌then◌else◌}
use copyfail_validation.Text.{Text, codes, equal, to_lower}
use copyfail_validation.Text.Laws.{equal_iff}
use copyfail_validation.Errors.{Error, Try, ok, err, is, unknown_format, sentinel, quoted, lit}

-- The string type Format: its constants, and any other value.
pub data Format : Type 0 where
  human json sarif prometheus : Format
  other : Text → Format

abbrev pub format_text : Format → Text
format_text human = codes "human"
format_text json = codes "json"
format_text sarif = codes "sarif"
format_text prometheus = codes "prometheus"
format_text (other t) = t

abbrev pub unknown : Text → Error
unknown s = sentinel unknown_format (
    lit "unknown report format: "
    ++ quoted s ∷ lit " (want one of: human, json, sarif, prometheus)")

-- The switch of ParseFormat on the name in lower case.
unfoldable pub format_named : Text → Text → Try Format
format_named s name =
    if equal name (codes "human")
    then ok human
    else if equal name (codes "json")
    then ok json
    else if equal name (codes "sarif")
    then ok sarif
    else if equal name (codes "prometheus")
    then ok prometheus
    else err (unknown s)

unfoldable pub parse_format : Text → Try Format
unfolding format_named
parse_format s = format_named s (to_lower s)

abbrev pub is_known : Format → Bool
is_known (other t) = false
is_known _ = true

named_sound :
    (s name : Text) (f : Format)
    → format_named s name ≡ ok f
    → (is_known f ≡ true) × (name ≡ format_text f)
unfolding format_named
named_sound s name f h = ground (
  arith,
  equal_iff name (codes "human"),
  equal_iff name (codes "json"),
  equal_iff name (codes "sarif"),
  equal_iff name (codes "prometheus"),
)

named_complete : (s : Text) (f : Format) → is_known f ≡ true → format_named s (format_text f) ≡ ok f
unfolding format_named equal
named_complete s human h = refl
named_complete s json h = refl
named_complete s sarif h = refl
named_complete s prometheus h = refl
named_complete s (other t) h = absurd (cc)

-- ParseFormat returns a format exactly for the name of one of the four in upper, lower or mixed
-- case; any error of it wraps ErrUnknownFormat.
pub parse_format_iff :
    (s : Text) (f : Format) (e : Error)
    → ((parse_format s ≡ ok f) ↔ ((is_known f ≡ true) × (to_lower s ≡ format_text f)))
      × (parse_format s ≡ err e → is e unknown_format ≡ true)
unfolding parse_format is
parse_format_iff s f e =
    ((named_sound s (to_lower s) f, λ (k, q). rw q (named_complete s f k)), ground arith)
