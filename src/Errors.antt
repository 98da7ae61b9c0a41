-- ===== src/Errors.antt =====
-- Go errors: a message, and the sentinels that errors.Is finds in the chain.
use copyfail_validation.Base.{
  ◌≡◌, refl, ◌⊎◌, inl, inr, ℕ, String, List, [], ◌∷◌, ◌++◌, Bool, true, false, ◌||◌, Option, none,
  some,
}
use copyfail_validation.Base.Int.{ℤ}
use copyfail_validation.Text.{Text, codes}
use copyfail_validation.Text.Number.{NumError, invalid_syntax, value_out_of_range}

-- What a fmt verb writes: `%s` or `%v` of a text, `%q`, and `%d` of an integer. The quoting of
-- `%q` is not carried out.
pub data Piece : Type 0 where
  str : Text → Piece
  quoted : Text → Piece
  num : ℕ → Piece
  int : ℤ → Piece

abbrev pub Message : Type 0
Message = List Piece

-- Text of the source that a format string holds between its verbs.
abbrev pub lit : String → Message
lit s = str (codes s) ∷ []

-- The sentinel errors of the program, those of io/fs and flag that it tests for, and the two of
-- package context. An *exec.ExitError counts as `exit_status`.
pub data Sentinel : Type 0 where
  not_exist permission : Sentinel
  parse malformed : Sentinel
  command_denied command_not_found invalid_arg timed_out output_truncated exit_status : Sentinel
  unknown_format renderer_not_registered : Sentinel
  no_pkg_manager package_unknown : Sentinel
  help_or_version flag_conflict flag_parse empty_filter help : Sentinel
  not_root proc_missing : Sentinel
  render_failure encode_failure short_write io_short_write atomic_rename : Sentinel
  canceled deadline_exceeded : Sentinel

pub Sentinel-discrete : Discrete Sentinel
Sentinel-discrete = hlevel

pub record Error : Type 0 where
  pub message : Message
  pub chain : List Sentinel

abbrev is_sentinel : Sentinel → Sentinel → Bool
unfolding Sentinel-discrete
is_sentinel a b = elim (Sentinel-discrete a b) [ yes _ ↦ true | no _ ↦ false ]

unfoldable pub mentions : Sentinel → List Sentinel → Bool
unfolding is_sentinel
mentions s [] = false
mentions s (t ∷ ts) = is_sentinel s t || mentions s ts

-- errors.Is
unfoldable pub is : Error → Sentinel → Bool
unfolding mentions
is e s = mentions s e.chain

-- fmt.Errorf with one `%w`: the message around the wrapped error's, and its chain.
abbrev pub wrap : Message → Error → Error
wrap m e = record { message = m ++ e.message; chain = e.chain }

-- fmt.Errorf with two `%w`: a sentinel of the text `m`, and behind it an error.
abbrev pub wrap_both : Sentinel → Message → Error → Error
wrap_both s m e = record { message = m ++ e.message; chain = s ∷ e.chain }

-- fmt.Errorf with `%w` of a sentinel, whose own text is `head`.
abbrev pub sentinel : Sentinel → Message → Error
sentinel s m = record { message = m; chain = s ∷ [] }

-- fmt.Errorf with no `%w`, or errors.New of a text that nothing tests for.
abbrev pub plain : Message → Error
plain m = record { message = m; chain = [] }

-- errors.Join of errors that are not nil; nil of none.
unfoldable pub join_errors : List Error → Option Error
join_errors [] = none
join_errors (e ∷ es) = elim (join_errors es) [
  | none ↦ some e
  | some r ↦
      some (record { message = e.message ++ lit "\n" ++ r.message; chain = e.chain ++ r.chain })
]

-- The text of a strconv error on `s`.
abbrev pub num_error : Text → NumError → Error
num_error s invalid_syntax = plain (lit "parsing " ++ quoted s ∷ lit ": invalid syntax")
num_error s value_out_of_range = plain (lit "parsing " ++ quoted s ∷ lit ": value out of range")

-- A value and an error: the program's functions return both, and partial values count.
pub record Outcome {ℓ} (A : Type ℓ) : Type ℓ where
  pub value : A
  pub err : Option Error

-- A value, or the error in its place.
pub data Try {ℓ} (A : Type ℓ) : Type ℓ where
  ok : A → Try A
  err : Error → Try A

pub Try-cases {ℓ} : {A : Type ℓ} (t : Try A) → ((a : A) × (t ≡ ok a)) ⊎ ((e : Error) × (t ≡ err e))
Try-cases (ok a) = inl (a, refl)
Try-cases (err e) = inr (e, refl)
