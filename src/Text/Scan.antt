-- ===== src/Text/Scan.antt =====
-- bufio.Scanner with its default split function (lines) and its default buffer.
use copyfail_validation.Base.{
  ℕ, List, [], ◌∷◌, Option, none, some, leb, ltb, ◌==◌, ◌+◌, is_empty, if◌then◌else◌,
}
use copyfail_validation.Text.{Text, split}

-- Bytes of the UTF-8 encoding of a code point.
abbrev pub code_size : ℕ → ℕ
code_size c =
    if ltb c 0x80
    then 1
    else if ltb c 0x800
    then 2
    else if ltb c 0x10000
    then 3
    else if ltb c 0x110000
    then 4
    else 1

unfoldable pub byte_size : Text → ℕ
byte_size [] = 0
byte_size (c ∷ s) = code_size c + byte_size s

-- bufio.MaxScanTokenSize: a line of this many bytes fills the buffer before its end is seen.
abbrev pub max_token : ℕ
max_token = 0x10000

-- `some e` after the last line: why the scanner stopped, other than at the end of the input.
pub data ScanError {ℓ} (E : Type ℓ) : Type ℓ where
  too_long : ScanError E
  read_error : E → ScanError E

-- An io.Reader: what it delivers, and the error with which it ends instead of io.EOF.
pub record Reader {ℓ} (E : Type ℓ) : Type ℓ where
  pub content : Text
  pub failure : Option E

-- The empty piece after a final newline is no line.
unfoldable pub drop_final : List Text → List Text
drop_final [] = []
drop_final (l ∷ []) = if is_empty l then [] else l ∷ []
drop_final (l ∷ m ∷ ls) = l ∷ drop_final (m ∷ ls)

-- A carriage return before the newline is dropped.
unfoldable pub drop_cr : Text → Text
drop_cr [] = []
drop_cr (c ∷ []) = if c == b'\r' then [] else c ∷ []
drop_cr (c ∷ d ∷ s) = c ∷ drop_cr (d ∷ s)

-- What a loop over Scan and Text sees, and what Err says after it.
pub record Scanned {ℓ} (E : Type ℓ) : Type ℓ where
  pub lines : List Text
  pub stop : Option (ScanError E)

module _ {ℓ} {E : Type ℓ} where
  unfoldable pub scan_lines : Option E → List Text → Scanned E
  unfolding drop_cr byte_size
  scan_lines none [] = record { lines = []; stop = none }
  scan_lines (some e) [] = record { lines = []; stop = some (read_error e) }
  scan_lines f (l ∷ ls) =
      let rest = scan_lines f ls in
      if leb max_token (byte_size l)
      then record { lines = []; stop = some too_long }
      else record { lines = drop_cr l ∷ rest.lines; stop = rest.stop }

  unfoldable pub scan : Reader E → Scanned E
  unfolding scan_lines drop_final split
  scan r = scan_lines r.failure (drop_final (split (λ c. c == b'\n') r.content))
