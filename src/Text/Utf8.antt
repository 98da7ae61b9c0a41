-- ===== src/Text/Utf8.antt =====
-- The text of a byte slice: unicode/utf8's DecodeRune from one rune to the next. A byte that begins no valid
-- encoding stands as a number above all code points.
use copyfail_validation.Base.{
  ℕ, zero, suc, List, [], ◌∷◌, ◌+◌, ◌-◌, ◌*◌, Bool, ◌&&◌, leb, ltb, ◌==◌, if◌then◌else◌,
}
use copyfail_validation.Text.{Text}

abbrev pub Bytes : Type 0
Bytes = List ℕ

abbrev between : ℕ → ℕ → ℕ → Bool
between low high b = leb low b && leb b high

-- The bounds of the second byte, which rule out longer encodings, surrogates and what is above 0x10ffff.
abbrev second_low : ℕ → ℕ
second_low b = if b == 0xe0 then 0xa0 else if b == 0xf0 then 0x90 else 0x80

abbrev second_high : ℕ → ℕ
second_high b = if b == 0xed then 0x9f else if b == 0xf4 then 0x8f else 0xbf

abbrev invalid : ℕ → ℕ × ℕ
invalid b = (0x110000 + b, 0)

-- The code point that a byte begins, and how many of the bytes behind it belong to it.
unfoldable pub decode_rune : ℕ → Bytes → ℕ × ℕ
decode_rune b (c ∷ d ∷ e ∷ s) =
    if ltb b 0x80
    then (b, 0)
    else if between 0xc2 0xdf b && between 0x80 0xbf c
    then ((b - 0xc0) * 0x40 + (c - 0x80), 1)
    else if between 0xe0 0xef b && between (second_low b) (second_high b) c && between 0x80 0xbf d
    then ((b - 0xe0) * 0x1000 + (c - 0x80) * 0x40 + (d - 0x80), 2)
    else if between 0xf0 0xf4 b
        && between (second_low b) (second_high b) c
        && between 0x80 0xbf d
        && between 0x80 0xbf e
    then ((b - 0xf0) * 0x40000 + (c - 0x80) * 0x1000 + (d - 0x80) * 0x40 + (e - 0x80), 3)
    else invalid b
decode_rune b (c ∷ d ∷ []) =
    if ltb b 0x80
    then (b, 0)
    else if between 0xc2 0xdf b && between 0x80 0xbf c
    then ((b - 0xc0) * 0x40 + (c - 0x80), 1)
    else if between 0xe0 0xef b && between (second_low b) (second_high b) c && between 0x80 0xbf d
    then ((b - 0xe0) * 0x1000 + (c - 0x80) * 0x40 + (d - 0x80), 2)
    else invalid b
decode_rune b (c ∷ []) =
    if ltb b 0x80
    then (b, 0)
    else if between 0xc2 0xdf b && between 0x80 0xbf c
    then ((b - 0xc0) * 0x40 + (c - 0x80), 1)
    else invalid b
decode_rune b [] = if ltb b 0x80 then (b, 0) else invalid b

-- The text behind a number of bytes that are read already.
unfoldable pub decode_from : ℕ → Bytes → Text
unfolding decode_rune
decode_from skip [] = []
decode_from (suc skip) (b ∷ s) = decode_from skip s
decode_from zero (b ∷ s) = let (c, more) = decode_rune b s in c ∷ decode_from more s

unfoldable pub decode : Bytes → Text
unfolding decode_from
decode s = decode_from 0 s
