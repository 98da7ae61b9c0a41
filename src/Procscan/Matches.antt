-- ===== src/Procscan/Matches.antt =====
-- What internal/procscan/afalg.go takes for a use of the AF_ALG modules.
use copyfail_validation.Base.{
  List, [], ◌∷◌, ◌++◌, true, false, none, some, ◌≡◌, ◌↔◌, refl, ap, arith, Bool-cases, Option-cases,
  inl, inr, All,
}
use copyfail_validation.Text.{Text, contains}
use copyfail_validation.Text.Scan.{scan}
use copyfail_validation.Errors.{Error}
use copyfail_validation.Procscan.{af_alg_modules, module_in, first_match, find_af_alg_match}

-- The lines that the scanner finds.
abbrev pub lines_of : Text → List Text
lines_of maps = (scan {E = Error} (record { content = maps; failure = none })).lines

-- The line names none of the modules.
abbrev pub IsFree : List Text → Text → Type 0
IsFree modules line = All (λ m. contains line m ≡ false) modules

-- The module is the first of the list that the line names.
pub record FirstModule (modules : List Text) (line m : Text) : Type 0 where
  pub earlier : List Text
  pub later : List Text
  pub parts : modules ≡ earlier ++ m ∷ later
  pub not_earlier : IsFree earlier line
  pub named : contains line m ≡ true

-- The line is the first that names a module, and the module the first that it names.
pub record FirstMatch (lines : List Text) (m line : Text) : Type 0 where
  pub earlier : List Text
  pub later : List Text
  pub parts : lines ≡ earlier ++ line ∷ later
  pub not_earlier : All (IsFree af_alg_modules) earlier
  pub module_named : FirstModule af_alg_modules line m

module_in-none : (line : Text) (ms : List Text) → (module_in line ms ≡ none) ↔ IsFree ms line
unfolding module_in
module_in-none line [] = (λ h. tt, λ h. refl)
module_in-none line (m ∷ ms) = elim (Bool-cases (contains line m)) [
  | inl y ↦ rw y (λ h. absurd (cc), λ h. absurd (cc (h.0)))
  | inr n ↦ rw n (λ h. (refl, (module_in-none line ms).0 h), λ h. (module_in-none line ms).1 h.1)
]

module_in-some :
    (line m : Text) (ms : List Text) → module_in line ms ≡ some m → FirstModule ms line m
unfolding module_in
module_in-some line m [] h = absurd (cc)
module_in-some line m (x ∷ ms) h = elim (Bool-cases (contains line x)) [
  | inl y ↦
      let same : x ≡ m = ground (arith, y, h) in
      record {
        earlier = [];
        later = ms;
        parts = ap (λ z. z ∷ ms) same;
        not_earlier = tt;
        named = ground (arith, same, y);
      }
  | inr n ↦
      let f = module_in-some line m ms (ground (arith, n, h)) in
      record {
        earlier = x ∷ f.earlier;
        later = f.later;
        parts = ap (◌∷◌ x) f.parts;
        not_earlier = (n, f.not_earlier);
        named = f.named;
      }
]

first_match-none :
    (lines : List Text) → (first_match lines ≡ none) ↔ All (IsFree af_alg_modules) lines
unfolding first_match
first_match-none [] = (λ h. tt, λ h. refl)
first_match-none (line ∷ lines) = elim (Option-cases (module_in line af_alg_modules)) [
  | inl n ↦
      rw (n, first_match)
        (
          λ h. ((module_in-none line af_alg_modules).0 n, (first_match-none lines).0 h),
          λ h. (first_match-none lines).1 h.1,
        )
  | inr (m, y) ↦
      rw (y, first_match)
        (λ h. absurd (cc), λ h. absurd (cc (y, (module_in-none line af_alg_modules).1 h.0)))
]

first_match-some :
    (lines : List Text) (m line : Text)
    → first_match lines ≡ some (m, line)
    → FirstMatch lines m line
unfolding first_match
first_match-some [] m line h = absurd (cc)
first_match-some (l ∷ lines) m line h = elim (Option-cases (module_in l af_alg_modules)) [
  | inl n ↦
      let f = first_match-some lines m line (rw (n, first_match) at h) in
      record {
        earlier = l ∷ f.earlier;
        later = f.later;
        parts = ap (◌∷◌ l) f.parts;
        not_earlier = ((module_in-none l af_alg_modules).0 n, f.not_earlier);
        module_named = f.module_named;
      }
  | inr (x, y) ↦
      let e : some (x, l) ≡ some (m, line) = rw (y, first_match) at h in
      let same_module : x ≡ m = ground (arith, e) in
      let same_line : l ≡ line = ground (arith, e) in
      record {
        earlier = [];
        later = lines;
        parts = ap (λ z. z ∷ lines) same_line;
        not_earlier = tt;
        module_named = rw (← same_module) (rw (← same_line) (module_in-some l x af_alg_modules y));
      }
]

-- A process is passed over exactly if no line of its maps names one of the modules. Otherwise the line
-- that is reported is the first that does, and the module the first of the list that it names.
pub find_af_alg_match_lem :
    (maps : Text)
    → ((find_af_alg_match maps ≡ none) ↔ All (IsFree af_alg_modules) (lines_of maps))
      × ((m line : Text)
          → find_af_alg_match maps ≡ some (m, line)
          → FirstMatch (lines_of maps) m line)
unfolding find_af_alg_match
find_af_alg_match_lem maps = (first_match-none (lines_of maps), first_match-some (lines_of maps))
