-- ===== src/Render/Document/Line.antt =====
-- The text that encoding/json marshals is one line.
use copyfail_validation.Base.{
  ℕ, [], ◌∷◌, Bool, true, false, ◌==◌, ◌||◌, ltb, if◌then◌else◌, ◌≡◌, refl, arith, All,
}
use copyfail_validation.Text.{Text, codes}
use copyfail_validation.Text.Laws.{Free}
use copyfail_validation.Text.Words.{Free-append, is_free, is_free-Free}
use copyfail_validation.Text.Number.{is_digit}
use copyfail_validation.Text.Decimal.{format_ℕ, format_ℕ-is_digit}
use copyfail_validation.Json.{
  Json, Items, Fields, null, bool, number, string, array, object, nil, item, end, field, marshal,
  marshal_items, marshal_fields, marshal_string, marshal_codes, marshal_code, hex_digit,
  unicode_escape, truth,
}

abbrev newline : ℕ → Bool
newline c = c == b'\n'

-- No line break is in the text.
abbrev pub IsOneLine : Text → Type 0
IsOneLine = Free newline

-- The numbers in a value hold no line break.
unfoldable mutual
  pub HasPlainNumbers : Json → Type 0
  HasPlainNumbers (number n) = IsOneLine n
  HasPlainNumbers (array vs) = ItemsPlain vs
  HasPlainNumbers (object fs) = FieldsPlain fs
  HasPlainNumbers _ = Unit

  pub ItemsPlain : Items → Type 0
  ItemsPlain nil = Unit
  ItemsPlain (item v vs) = HasPlainNumbers v × ItemsPlain vs

  pub FieldsPlain : Fields → Type 0
  FieldsPlain end = Unit
  FieldsPlain (field k v fs) = HasPlainNumbers v × FieldsPlain fs

literal_IsOneLine : (s : Text) → is_free newline s ≡ true → IsOneLine s
literal_IsOneLine s h = is_free-Free newline s h

hex_digit-newline : (n : ℕ) → newline (hex_digit n) ≡ false
hex_digit-newline n = ground arith

unicode_escape-IsOneLine : (c : ℕ) → IsOneLine (unicode_escape c)
unicode_escape-IsOneLine c = (
  refl,
  (
    refl,
    (hex_digit-newline _, (hex_digit-newline _, (hex_digit-newline _, (hex_digit-newline _, tt)))),
  ),
)

either_IsOneLine :
    (b : Bool) (s t : Text)
    → (b ≡ true → IsOneLine s)
    → (b ≡ false → IsOneLine t)
    → IsOneLine (if b then s else t)
either_IsOneLine true s t hs ht = hs refl
either_IsOneLine false s t hs ht = ht refl

marshal_code-IsOneLine : (c : ℕ) → IsOneLine (marshal_code c)
unfolding marshal_code
marshal_code-IsOneLine c =
    either_IsOneLine (c == b'"' || c == b'\\') (b'\\' ∷ c ∷ []) _
      (λ h. (refl, (ground (arith, h), tt)))
      (λ a.
        either_IsOneLine (c == 8) _ _ (λ h. (refl, (refl, tt)))
          (λ a.
            either_IsOneLine (c == 12) _ _ (λ h. (refl, (refl, tt)))
              (λ a.
                either_IsOneLine (c == b'\n') _ _ (λ h. (refl, (refl, tt)))
                  (λ n.
                    either_IsOneLine (c == b'\r') _ _ (λ h. (refl, (refl, tt)))
                      (λ a.
                        either_IsOneLine (c == b'\t') _ _ (λ h. (refl, (refl, tt)))
                          (λ a.
                            either_IsOneLine
                              (ltb c 0x20
                                || c == b'<'
                                || c == b'>'
                                || c == b'&'
                                || c == 0x2028
                                || c == 0x2029)
                              (unicode_escape c) _ (λ h. unicode_escape-IsOneLine c)
                              (λ a.
                                either_IsOneLine (ltb c 0x110000) (c ∷ []) (codes "\\ufffd")
                                  (λ h. (n, tt))
                                  (λ h. literal_IsOneLine (codes "\\ufffd") refl))))))))

marshal_codes-IsOneLine : (s : Text) → IsOneLine (marshal_codes s)
unfolding marshal_codes
marshal_codes-IsOneLine [] = tt
marshal_codes-IsOneLine (c ∷ s) =
    Free-append newline (marshal_code c) _ (marshal_code-IsOneLine c) (marshal_codes-IsOneLine s)

marshal_string-IsOneLine : (s : Text) → IsOneLine (marshal_string s)
unfolding marshal_string
marshal_string-IsOneLine s =
    (refl, Free-append newline (marshal_codes s) _ (marshal_codes-IsOneLine s) (refl, tt))

separator_IsOneLine : (first : Bool) → IsOneLine (if first then [] else codes ",")
separator_IsOneLine true = tt
separator_IsOneLine false = (refl, tt)

truth-IsOneLine : (b : Bool) → IsOneLine (truth b)
truth-IsOneLine true = literal_IsOneLine (codes "true") refl
truth-IsOneLine false = literal_IsOneLine (codes "false") refl

mutual
  unfolding marshal HasPlainNumbers

  pub marshal-IsOneLine : (v : Json) → HasPlainNumbers v → IsOneLine (marshal v)
  marshal-IsOneLine null h = literal_IsOneLine (codes "null") refl
  marshal-IsOneLine (bool b) h = truth-IsOneLine b
  marshal-IsOneLine (number n) h = h
  marshal-IsOneLine (string s) h = marshal_string-IsOneLine s
  marshal-IsOneLine (array vs) h = (
    refl,
    Free-append newline (marshal_items true vs) _ (marshal_items-IsOneLine true vs h) (refl, tt),
  )
  marshal-IsOneLine (object fs) h = (
    refl,
    Free-append newline (marshal_fields true fs) _ (marshal_fields-IsOneLine true fs h) (refl, tt),
  )

  marshal_items-IsOneLine :
      (first : Bool) (vs : Items) → ItemsPlain vs → IsOneLine (marshal_items first vs)
  marshal_items-IsOneLine first nil h = tt
  marshal_items-IsOneLine first (item v vs) (h, hs) =
      Free-append newline _ _ (separator_IsOneLine first) (
        Free-append newline (marshal v) _ (marshal-IsOneLine v h)
          (marshal_items-IsOneLine false vs hs))

  marshal_fields-IsOneLine :
      (first : Bool) (fs : Fields) → FieldsPlain fs → IsOneLine (marshal_fields first fs)
  marshal_fields-IsOneLine first end h = tt
  marshal_fields-IsOneLine first (field k v fs) (h, hs) =
      Free-append newline _ _ (separator_IsOneLine first) (
        Free-append newline (marshal_string k) _ (marshal_string-IsOneLine k) (
          refl,
          Free-append newline (marshal v) _ (marshal-IsOneLine v h)
              (marshal_fields-IsOneLine false fs hs),
        ))

digits_IsOneLine : (s : Text) → All (λ c. is_digit c ≡ true) s → IsOneLine s
unfolding is_digit
digits_IsOneLine [] h = tt
digits_IsOneLine (c ∷ s) h = (ground (arith, h.0), digits_IsOneLine s h.1)

pub format_ℕ-IsOneLine : (n : ℕ) → IsOneLine (format_ℕ n)
format_ℕ-IsOneLine n = digits_IsOneLine (format_ℕ n) (format_ℕ-is_digit n)
