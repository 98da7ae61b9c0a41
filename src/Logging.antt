-- ===== src/Logging.antt =====
-- internal/logging/logging.go and internal/buildinfo: what the logger is made of, and the version of the
-- tool. The random bytes and the values that the linker writes are arguments; log/slog writes the lines.
use Prim.Native.Nat.{◌/◌, ◌%◌}
use copyfail_validation.Base.{
  ℕ, List, [], ◌∷◌, ◌<◌, ◌*◌, Bool, true, false, ◌&&◌, ◌||◌, leb, is_empty, length, if◌then◌else◌,
  ◌≡◌, ◌↔◌, refl, arith, All, Bool-cases, inl, inr,
}
use copyfail_validation.Base.Int.{ℤ, pos, negsuc}
use copyfail_validation.Text.{Text, codes}
use copyfail_validation.Errors.{Try, ok, err}
use copyfail_validation.Json.{hex_digit}
use copyfail_validation.Report.{ToolInfo}

-- The variables that the linker sets.
pub record BuildInfo : Type 0 where
  pub version : Text
  pub commit : Text
  pub build_date : Text

abbrev pub tool_name : Text
tool_name = codes "copyfail-validate"

abbrev pub default_build_info : BuildInfo
default_build_info = record {
  version = codes "v0.0.0-dev";
  commit = codes "unknown";
  build_date = codes "unknown";
}

-- Info
unfoldable pub info : BuildInfo → ToolInfo
info b = record {
  name = tool_name;
  version = b.version;
  commit = b.commit;
  build_date = b.build_date;
}

pub data Level : Type 0 where
  warn info_level debug : Level

-- levelAndSource
unfoldable pub level_and_source : ℤ → Level × Bool
level_and_source (pos n) =
    if leb 2 n then (debug, true) else if leb 1 n then (info_level, false) else (warn, false)
level_and_source (negsuc n) = (warn, false)

-- hex.EncodeToString
unfoldable pub encode_hex : List ℕ → Text
encode_hex [] = []
encode_hex (b ∷ bs) = hex_digit (b / 16) ∷ hex_digit (b % 16) ∷ encode_hex bs

-- generateRunID, for what rand.Read answers.
unfoldable pub generate_run_id : Try (List ℕ) → Text
unfolding encode_hex
generate_run_id (err e) = codes "00000000000000000000000000000000"
generate_run_id (ok bytes) = encode_hex bytes

-- The base attributes of a logger.
pub record Attributes : Type 0 where
  pub tool : Text
  pub version : Text
  pub run_id : Text

pub record Logger : Type 0 where
  pub level : Level
  pub add_source : Bool
  pub attributes : Attributes

-- New, for the RunID and the Verbosity of the options.
unfoldable pub new_logger : BuildInfo → Try (List ℕ) → Text → ℤ → Logger
unfolding generate_run_id level_and_source
new_logger b random run_id verbosity =
    let (level, add_source) = level_and_source verbosity in
    record {
      level = level;
      add_source = add_source;
      attributes = record {
        tool = tool_name;
        version = b.version;
        run_id = if is_empty run_id then generate_run_id random else run_id;
      };
    }

-- A hexadecimal digit in lower case.
abbrev pub IsHex : ℕ → Type 0
IsHex c = ((leb b'0' c && leb c b'9') || (leb b'a' c && leb c b'f')) ≡ true

hex_digit-IsHex : (n : ℕ) → n < 16 → IsHex (hex_digit n)
hex_digit-IsHex n h = ground (arith, h)

encode_hex-IsHex : (bytes : List ℕ) → All (λ b. b < 256) bytes → All IsHex (encode_hex bytes)
unfolding encode_hex
encode_hex-IsHex [] h = tt
encode_hex-IsHex (b ∷ bs) h = (
  hex_digit-IsHex (b / 16) (ground (arith, h.0)),
  (hex_digit-IsHex (b % 16) (ground arith), encode_hex-IsHex bs h.1),
)

length-encode_hex : (bytes : List ℕ) → length (encode_hex bytes) ≡ 2 * length bytes
unfolding encode_hex
length-encode_hex [] = refl
length-encode_hex (b ∷ bs) = ground (arith, length-encode_hex bs)

abbrev is_hex : ℕ → Bool
is_hex c = (leb b'0' c && leb c b'9') || (leb b'a' c && leb c b'f')

abbrev all_hex : Text → Bool
all_hex [] = true
all_hex (c ∷ s) = is_hex c && all_hex s

all_hex_digits : (s : Text) → all_hex s ≡ true → All IsHex s
all_hex_digits [] h = tt
all_hex_digits (c ∷ s) h =
    let (now, later) : (is_hex c ≡ true) × (all_hex s ≡ true) = ground (arith, h) in
    (now, all_hex_digits s later)

-- What rand.Read answers: an error, or all sixteen bytes.
abbrev pub IsRead : Try (List ℕ) → Type 0
IsRead (err e) = Unit
IsRead (ok bytes) = (length bytes ≡ 16) × All (λ b. b < 256) bytes

generate_run_id_lem :
    (random : Try (List ℕ))
    → IsRead random
    → (length (generate_run_id random) ≡ 32) × All IsHex (generate_run_id random)
unfolding generate_run_id
generate_run_id_lem (err e) h =
    (refl, all_hex_digits (codes "00000000000000000000000000000000") refl)
generate_run_id_lem (ok bytes) h =
    (ground (arith, length-encode_hex bytes, h.0), encode_hex-IsHex bytes h.1)

level_and_source_lem :
    (verbosity : ℤ)
    → ((level_and_source verbosity).1 ≡ true) ↔ ((level_and_source verbosity).0 ≡ debug)
unfolding level_and_source
level_and_source_lem (negsuc n) = (λ h. absurd (cc h), λ h. absurd (cc h))
level_and_source_lem (pos n) = elim (Bool-cases (leb 2 n)) [
  | inl d ↦ rw d (λ h. refl, λ h. refl)
  | inr e ↦ rw e (elim (Bool-cases (leb 1 n)) [
    | inl i ↦ rw i (λ h. absurd (cc h), λ h. absurd (cc h))
    | inr j ↦ rw j (λ h. absurd (cc h), λ h. absurd (cc h))
  ])
]

-- The run id of a logger is the one of the options; where they have none it is made of 32 hexadecimal
-- digits, also where no random bytes can be read. Source positions are added exactly at the level of
-- debugging.
pub new_logger_lem :
    (b : BuildInfo) (random : Try (List ℕ)) (run_id : Text) (verbosity : ℤ)
    → IsRead random
    → (is_empty run_id ≡ false → (new_logger b random run_id verbosity).attributes.run_id ≡ run_id)
      × (is_empty run_id ≡ true
          → (length (new_logger b random run_id verbosity).attributes.run_id ≡ 32)
            × All IsHex (new_logger b random run_id verbosity).attributes.run_id)
      × (((new_logger b random run_id verbosity).add_source ≡ true)
          ↔ ((new_logger b random run_id verbosity).level ≡ debug))
unfolding new_logger
new_logger_lem b random run_id verbosity h =
    (λ n. rw n refl, λ e. rw e (generate_run_id_lem random h), level_and_source_lem verbosity)
