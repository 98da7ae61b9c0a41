-- ===== src/Json.antt =====
-- The values of encoding/json, and the text that Marshal writes for strings and that Indent makes of a
-- value: what internal/render and internal/canonjson use of that package.
use Prim.Native.Nat.{◌/◌, ◌%◌}
use copyfail_validation.Base.{
  ℕ, zero, suc, [], ◌∷◌, ◌++◌, ◌+◌, Bool, true, false, ◌||◌, ◌==◌, ltb, if◌then◌else◌,
}
use copyfail_validation.Text.{Text, codes}

-- A number is kept as the text that json.Number holds.
mutual
  pub data Json : Type 0 where
    null : Json
    bool : Bool → Json
    number : Text → Json
    string : Text → Json
    array : Items → Json
    object : Fields → Json

  pub data Items : Type 0 where
    nil : Items
    item : Json → Items → Items

  pub data Fields : Type 0 where
    end : Fields
    field : Text → Json → Fields → Fields

abbrev pub hex_digit : ℕ → ℕ
hex_digit n = if ltb n 10 then b'0' + n else 87 + n

-- `\u` and four hexadecimal digits.
abbrev pub unicode_escape : ℕ → Text
unicode_escape c =
    b'\\'
    ∷ b'u'
    ∷ hex_digit (c / 0x1000 % 16)
    ∷ hex_digit (c / 0x100 % 16)
    ∷ hex_digit (c / 0x10 % 16)
    ∷ hex_digit (c % 16)
    ∷ []

-- What Marshal writes for a code point of a string, with the escapes for HTML; a byte that is no valid
-- UTF-8 becomes `\ufffd`.
unfoldable pub marshal_code : ℕ → Text
marshal_code c =
    if c == b'"' || c == b'\\'
    then b'\\' ∷ c ∷ []
    else if c == 8
    then codes "\\b"
    else if c == 12
    then codes "\\f"
    else if c == b'\n'
    then codes "\\n"
    else if c == b'\r'
    then codes "\\r"
    else if c == b'\t'
    then codes "\\t"
    else if ltb c 0x20 || c == b'<' || c == b'>' || c == b'&' || c == 0x2028 || c == 0x2029
    then unicode_escape c
    else if ltb c 0x110000
    then c ∷ []
    else codes "\\ufffd"

unfoldable pub marshal_codes : Text → Text
unfolding marshal_code
marshal_codes [] = []
marshal_codes (c ∷ s) = marshal_code c ++ marshal_codes s

-- json.Marshal of a string
unfoldable pub marshal_string : Text → Text
unfolding marshal_codes
marshal_string s = b'"' ∷ (marshal_codes s ++ b'"' ∷ [])

-- A line break of Indent, with its two blanks for each level.
unfoldable pub blanks : ℕ → Text
blanks zero = []
blanks (suc depth) = b' ' ∷ b' ' ∷ blanks depth

unfoldable pub line_break : ℕ → Text
unfolding blanks
line_break depth = b'\n' ∷ blanks depth

abbrev pub truth : Bool → Text
truth true = codes "true"
truth false = codes "false"

-- json.Marshal, and json.Indent of what it wrote with an indent of two blanks.
unfoldable mutual
  unfolding marshal_string line_break

  pub indent : ℕ → Json → Text
  indent depth null = codes "null"
  indent depth (bool b) = truth b
  indent depth (number n) = n
  indent depth (string s) = marshal_string s
  indent depth (array nil) = codes "[]"
  indent depth (array (item v vs)) =
      b'[' ∷ (line_break (suc depth) ++ (indent (suc depth) v ++ indent_items depth vs))
  indent depth (object end) = codes "{}"
  indent depth (object (field k v fs)) =
      b'{'
      ∷ (line_break (suc depth)
          ++ (marshal_string k ++ (codes ": " ++ (indent (suc depth) v ++ indent_fields depth fs))))

  -- The items behind the first, and the end of the array.
  pub indent_items : ℕ → Items → Text
  indent_items depth nil = line_break depth ++ codes "]"
  indent_items depth (item v vs) =
      b',' ∷ (line_break (suc depth) ++ (indent (suc depth) v ++ indent_items depth vs))

  pub indent_fields : ℕ → Fields → Text
  indent_fields depth end = line_break depth ++ codes "}"
  indent_fields depth (field k v fs) =
      b','
      ∷ (line_break (suc depth)
          ++ (marshal_string k ++ (codes ": " ++ (indent (suc depth) v ++ indent_fields depth fs))))

-- json.Marshal
unfoldable mutual
  unfolding marshal_string

  pub marshal : Json → Text
  marshal null = codes "null"
  marshal (bool b) = truth b
  marshal (number n) = n
  marshal (string s) = marshal_string s
  marshal (array vs) = b'[' ∷ (marshal_items true vs ++ codes "]")
  marshal (object fs) = b'{' ∷ (marshal_fields true fs ++ codes "}")

  -- The flag says that nothing stands before.
  pub marshal_items : Bool → Items → Text
  marshal_items first nil = []
  marshal_items first (item v vs) =
      (if first then [] else codes ",") ++ (marshal v ++ marshal_items false vs)

  pub marshal_fields : Bool → Fields → Text
  marshal_fields first end = []
  marshal_fields first (field k v fs) =
      (if first then [] else codes ",")
      ++ (marshal_string k ++ (codes ":" ++ (marshal v ++ marshal_fields false fs)))
