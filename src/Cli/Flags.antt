-- ===== src/Cli/Flags.antt =====
-- cmd/copyfail-validate/flags.go: from the arguments and the environment to the options. What
-- package flag makes of the arguments, given the defaults, is a parameter, as is
-- time.ParseDuration.
use copyfail_validation.Base.{
  zero, suc, ◌+◌, ◌-◌, ◌*◌, ◌^◌, ◌==◌, List, [], ◌∷◌, ◌++◌, Bool, true, false, not, ◌&&◌, ◌||◌,
  Option, none, some, if◌then◌else◌, ◌≡◌, ◌⊎◌, inl, inr, arith, ap, sym, is_empty, Bool-cases,
}
use copyfail_validation.Base.Int.{ℤ, pos, negsuc}
use copyfail_validation.Text.{Text, codes, equal, to_lower}
use copyfail_validation.Text.Number.{parsed, refused, parse_int}
use copyfail_validation.Errors.{
  Error, Try, ok, err, help_or_version, flag_conflict, flag_parse, help, is, sentinel, quoted, lit,
  num_error, wrap,
}
use copyfail_validation.Report.Format.{Format, parse_format, is_known, parse_format_iff}
use copyfail_validation.Cli.Filter.{parse_csv_filter}

pub record Options : Type 0 where
  pub format : Format
  pub output : Text
  pub module_name : Text
  pub conf : Text
  pub only : List Text
  pub skip : List Text
  pub timeout : ℤ
  pub concurrency : ℤ
  pub verbosity : ℤ
  pub no_color : Bool

pub record EnvDefaultValues : Type 0 where
  pub format_str : Text
  pub module_name : Text
  pub conf : Text
  pub timeout : ℤ

-- os.Getenv, which is empty where a variable is not set.
abbrev pub Environment : Type 0
Environment = Text → Text

abbrev pub ParseDuration : Type 0
ParseDuration = Text → Try ℤ

abbrev pub default_per_check_timeout : ℤ
default_per_check_timeout = pos (30 * 10 ^ 9)

abbrev or_default : Text → Text → Text
or_default v fallback = if is_empty v then fallback else v

abbrev timeout_of : ParseDuration → Text → ℤ
timeout_of parse_duration v =
    if is_empty v
    then default_per_check_timeout
    else elim (parse_duration v) [ ok d ↦ d | err e ↦ default_per_check_timeout ]

unfoldable pub read_env_defaults : ParseDuration → Environment → EnvDefaultValues
read_env_defaults parse_duration env = record {
  format_str = env (codes "COPYFAIL_FORMAT");
  module_name = or_default (env (codes "COPYFAIL_MODULE")) (codes "algif_aead");
  conf = or_default (env (codes "COPYFAIL_CONF")) (codes "/etc/modprobe.d/disable-algif-aead.conf");
  timeout = timeout_of parse_duration (env (codes "COPYFAIL_TIMEOUT"));
}

-- `*v++` on a 64-bit int.
unfoldable pub increment : ℤ → ℤ
increment (pos n) = if n + 1 == 2 ^ 63 then negsuc (2 ^ 63 - 1) else pos (n + 1)
increment (negsuc zero) = pos 0
increment (negsuc (suc n)) = negsuc n

-- verbosityCount.Set: the error, if any, and the count it leaves.
unfoldable pub set_verbosity : ℤ → Text → Option Error × ℤ
unfolding increment
set_verbosity v s =
    if equal (to_lower s) (codes "true")
    then (none, increment v)
    else if equal (to_lower s) (codes "false")
    then (none, pos 0)
    else elim (parse_int s) [
      | parsed n ↦ (none, n)
      | refused e ↦ (
        some (wrap (lit "verbosity: parse " ++ quoted s ∷ lit ": strconv.Atoi: ") (num_error s e)),
        v,
      )
    ]

-- The variables that the flags are bound to.
pub record Flags : Type 0 where
  pub format_str : Text
  pub output : Text
  pub timeout : ℤ
  pub concurrency : ℤ
  pub module_name : Text
  pub conf : Text
  pub skip_csv : Text
  pub only_csv : Text
  pub no_color : Bool
  pub version : Bool
  pub verbosity : ℤ

unfoldable pub initial_flags : EnvDefaultValues → Flags
initial_flags d = record {
  format_str = d.format_str;
  output = codes "-";
  timeout = d.timeout;
  concurrency = pos 0;
  module_name = d.module_name;
  conf = d.conf;
  skip_csv = [];
  only_csv = [];
  no_color = false;
  version = false;
  verbosity = pos 0;
}

-- fs.Parse: the variables after the arguments, or an error.
abbrev pub FlagSet : Type 0
FlagSet = Flags → List Text → Try Flags

-- autoDetectFormat: whether os.Stdout.Stat shows a character device.
unfoldable pub auto_detect_format : Try Bool → Text
auto_detect_format (err e) = codes "json"
auto_detect_format (ok true) = codes "human"
auto_detect_format (ok false) = codes "json"

unfoldable pub chosen_format : Try Bool → Flags → Text
unfolding auto_detect_format
chosen_format stdout f = if is_empty f.format_str then auto_detect_format stdout else f.format_str

-- fmt.Errorf of `%w: %w` with errFlagParse in front.
abbrev pub parse_error : Error → Error
parse_error e = record {
  message = lit "flags: parse error: " ++ e.message;
  chain = flag_parse ∷ e.chain;
}

abbrev conflict : Error
conflict = sentinel flag_conflict (lit "flags: --only and --skip are mutually exclusive")

abbrev requested : Error
requested = sentinel help_or_version (lit "flags: help or version requested")

abbrev options_of : Flags → Format → List Text → List Text → Options
options_of f format only skip = record {
  format = format;
  output = f.output;
  module_name = f.module_name;
  conf = f.conf;
  only = only;
  skip = skip;
  timeout = f.timeout;
  concurrency = f.concurrency;
  verbosity = f.verbosity;
  no_color = f.no_color;
}

unfoldable pub with_filters : Flags → Format → Try (List Text) → Try (List Text) → Try Options
with_filters f format (err e) skip = err e
with_filters f format (ok only) (err e) = err e
with_filters f format (ok only) (ok skip) =
    if not (is_empty only) && not (is_empty skip)
    then err conflict
    else ok (options_of f format only skip)

unfoldable pub with_format : Flags → Try Format → Try Options
unfolding with_filters
with_format f (err e) = err (parse_error e)
with_format f (ok format) =
    with_filters f format (parse_csv_filter f.only_csv (codes "only"))
      (parse_csv_filter f.skip_csv (codes "skip"))

unfoldable pub after_parse : Try Bool → Try Flags → Try Options
unfolding with_format chosen_format
after_parse stdout (err e) = err (parse_error e)
after_parse stdout (ok f) =
    let options = with_format f (parse_format (chosen_format stdout f)) in
    if f.version then err requested else options

unfoldable pub parse_flags :
    FlagSet → ParseDuration → Environment → Try Bool → List Text → Try Options
unfolding after_parse initial_flags read_env_defaults
parse_flags fs parse_duration env stdout argv =
    after_parse stdout (fs (initial_flags (read_env_defaults parse_duration env)) argv)

unfoldable pub is_help_or_version_exit : Option Error → Bool
unfolding is
is_help_or_version_exit none = false
is_help_or_version_exit (some e) = is e help_or_version || is e help

with_filters-exclusive :
    (f : Flags) (format : Format) (only skip : Try (List Text)) (o : Options)
    → with_filters f format only skip ≡ ok o
    → ((o.only ≡ []) ⊎ (o.skip ≡ [])) × (o.format ≡ format)
unfolding with_filters
with_filters-exclusive f format (err e) skip o h = absurd (cc)
with_filters-exclusive f format (ok only) (err e) o h = absurd (cc)
with_filters-exclusive f format (ok []) (ok skip) o h = ground (arith, h)
with_filters-exclusive f format (ok (x ∷ only)) (ok []) o h = ground (arith, h)
with_filters-exclusive f format (ok (x ∷ only)) (ok (y ∷ skip)) o h = absurd (ground (arith, h))

with_format-exclusive :
    (f : Flags) (format : Try Format) (o : Options)
    → with_format f format ≡ ok o
    → ((o.only ≡ []) ⊎ (o.skip ≡ [])) × (format ≡ ok o.format)
unfolding with_format
with_format-exclusive f (err e) o h = absurd (cc)
with_format-exclusive f (ok format) o h =
    let (x, q) =
      with_filters-exclusive f format (parse_csv_filter f.only_csv (codes "only"))
        (parse_csv_filter f.skip_csv (codes "skip")) o h in
    (x, ap ok (sym q))

after_parse-exclusive :
    (stdout : Try Bool) (f : Try Flags) (o : Options)
    → after_parse stdout f ≡ ok o
    → ((o.only ≡ []) ⊎ (o.skip ≡ [])) × (is_known o.format ≡ true)
unfolding after_parse chosen_format
after_parse-exclusive stdout (err e) o h = absurd (cc)
after_parse-exclusive stdout (ok f) o h = elim (Bool-cases f.version) [
  | inl t ↦ absurd (cc (t, h))
  | inr n ↦
      let name = chosen_format stdout f in
      let (x, q) = with_format-exclusive f (parse_format name) o (rw n at h) in
      (x, ((parse_format_iff name o.format conflict).0.0 q).0)
]

-- Options that parseFlags returns never have both filters, and their format is one of the four.
pub parse_flags-exclusive :
    (fs : FlagSet) (parse_duration : ParseDuration) (env : Environment) (stdout : Try Bool)
    (argv : List Text) (o : Options)
    → parse_flags fs parse_duration env stdout argv ≡ ok o
    → ((o.only ≡ []) ⊎ (o.skip ≡ [])) × (is_known o.format ≡ true)
unfolding parse_flags
parse_flags-exclusive fs parse_duration env stdout argv o h =
    after_parse-exclusive stdout (fs (initial_flags (read_env_defaults parse_duration env)) argv) o
      h
