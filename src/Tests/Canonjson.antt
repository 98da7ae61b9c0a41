-- ===== src/Tests/Canonjson.antt =====
-- Runs of internal/canonjson.
use mathlib.Core.List.{Pairwise, not-mem-nil, mem-cons}
use mathlib.Core.Logic.Or
use mathlib.Core.HLevel.{⊥_prop}
use copyfail_validation.Base.{◌≡◌, ◌≢◌, ◌∙◌, refl, ap, if◌then◌else◌}
use copyfail_validation.Text.{Text, codes, equal}
use copyfail_validation.Text.Order.{encode, encode_code}
use copyfail_validation.Errors.{Try, ok, err, plain, lit}
use copyfail_validation.Json.{Json, Fields, number, string, object, end, field}
use copyfail_validation.Canonjson.{
  write, canonicalize, sha256, KeysDiffer, same_object, swapped, canonicalize-Same,
}

abbrev tool_first : Fields
tool_first =
    field (codes "tool") (string (codes "v1")) (field (codes "total") (number (codes "5")) end)

abbrev total_first : Fields
total_first =
    field (codes "total") (number (codes "5")) (field (codes "tool") (string (codes "v1")) end)

-- A decoder that knows two inputs.
abbrev decode : Text → Try Json
decode s =
    if equal s (codes "{\"tool\":\"v1\",\"total\":5}")
    then ok (object tool_first)
    else if equal s (codes "{\"total\": 5, \"tool\": \"v1\"}")
    then ok (object total_first)
    else err (plain (lit "unexpected end of JSON input"))

keys_apart : encode (codes "tool") ≢ encode (codes "total")
unfolding encode encode_code
keys_apart e = cc

keys_differ : KeysDiffer tool_first
unfolding write
keys_differ =
    Pairwise.cons
      (λ b m h.
        Or.elim ⊥_prop (mem-cons.0 m) (λ e. keys_apart (h ∙ ap (λ r. encode r.0) e)) not-mem-nil)
      (Pairwise.cons (λ b m h. not-mem-nil m) Pairwise.nil)

canonical : write (object total_first) ≡ codes "{\"tool\":\"v1\",\"total\":5}"
unfolding write
canonical = refl

canonicalize-Same_example :
    (canonicalize decode (codes "{\"tool\":\"v1\",\"total\":5}") ≡ ok (write (object tool_first)))
    × (canonicalize decode (codes "{\"total\": 5, \"tool\": \"v1\"}")
        ≡ ok (write (object tool_first)))
    × (sha256 (λ s. s) decode (codes "{\"total\": 5, \"tool\": \"v1\"}")
        ≡ sha256 (λ s. s) decode (codes "{\"tool\":\"v1\",\"total\":5}"))
unfolding equal
canonicalize-Same_example =
    canonicalize-Same (λ s. s) decode (codes "{\"tool\":\"v1\",\"total\":5}")
      (codes "{\"total\": 5, \"tool\": \"v1\"}") (object tool_first) (object total_first) refl refl
      (same_object keys_differ swapped)
