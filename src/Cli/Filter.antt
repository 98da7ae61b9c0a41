-- ===== src/Cli/Filter.antt =====
-- The --only and --skip filters: parseCSVFilter of cmd/copyfail-validate/flags.go, and filterChecks
-- and toSet of main.go.
use copyfail_validation.Base.{
  ℕ, List, [], ◌∷◌, ◌++◌, Bool, true, false, not, if◌then◌else◌, ◌≡◌, ◌≢◌, ◌↔◌, inl, inr, arith,
  refl, keep, is_empty, Bool-cases, All, ◌==◌,
}
use mathlib.Core.List.{Perm, perm_middle}
use mathlib.Core.List.Perm
use copyfail_validation.Text.{Text, equal, split, trim_space, join}
use copyfail_validation.Text.Laws.{Free, split-join}
use copyfail_validation.Errors.{
  Error, Message, Try, ok, err, empty_filter, sentinel, plain, str, lit,
}
use copyfail_validation.Check.Execute.{Check}

-- A set is the list of what was put into it; `_, ok := set[id]` asks whether `id` is there.
unfoldable pub holds : List Text → Text → Bool
unfolding equal
holds [] id = false
holds (x ∷ xs) id = if equal x id then true else holds xs id

-- The elements of a list of strings as `%v` prints them, between the brackets.
abbrev spaced : List Text → Message
spaced [] = []
spaced (x ∷ []) = str x ∷ []
spaced (x ∷ y ∷ xs) = str x ∷ lit " " ++ spaced (y ∷ xs)

abbrev no_match : List Text → Error
no_match only = plain (lit "no checks match --only filter [" ++ spaced only ++ lit "]")

unfoldable pub filter_checks : List Check → List Text → List Text → Try (List Check)
unfolding holds
filter_checks checks only skip =
    let chosen = keep (λ (c : Check). holds only c.id) checks in
    if not (is_empty only)
    then (if is_empty chosen then err (no_match only) else ok chosen)
    else if not (is_empty skip)
    then ok (keep (λ (c : Check). not (holds skip c.id)) checks)
    else ok checks

abbrev pub is_comma : ℕ → Bool
is_comma c = c == b','

-- The loop over the parts.
unfoldable pub parts : List Text → List Text
parts [] = []
parts (p ∷ ps) =
    let rest = parts ps in
    let trimmed = trim_space p in if is_empty trimmed then rest else trimmed ∷ rest

unfoldable pub parse_csv_filter : Text → Text → Try (List Text)
unfolding parts
parse_csv_filter s field =
    let out = parts (split is_comma s) in
    if is_empty s
    then ok []
    else if is_empty out
    then err
        (sentinel empty_filter (lit "flags: --only / --skip value is empty: --" ++ str field ∷ []))
    else ok out

-- The checks with a listed id, and the others.
abbrev pub chosen_by : List Text → List Check → List Check
unfolding holds
chosen_by ids = keep (λ (c : Check). holds ids c.id)

abbrev pub spared_by : List Text → List Check → List Check
unfolding holds
spared_by ids = keep (λ (c : Check). not (holds ids c.id))

chosen-All :
    (ids : List Text) (cs : List Check)
    → All (λ (c : Check). holds ids c.id ≡ true) (chosen_by ids cs)
unfolding holds
chosen-All ids [] = tt
chosen-All ids (c ∷ cs) = elim (Bool-cases (holds ids c.id)) [
  | inl t ↦ rw t (t, chosen-All ids cs)
  | inr f ↦ rw f (chosen-All ids cs)
]

spared-All :
    (ids : List Text) (cs : List Check)
    → All (λ (c : Check). holds ids c.id ≡ false) (spared_by ids cs)
unfolding holds
spared-All ids [] = tt
spared-All ids (c ∷ cs) = elim (Bool-cases (holds ids c.id)) [
  | inl t ↦ rw t (spared-All ids cs)
  | inr f ↦ rw f (f, spared-All ids cs)
]

partition-Perm :
    (ids : List Text) (cs : List Check) → Perm (chosen_by ids cs ++ spared_by ids cs) cs
unfolding holds
partition-Perm ids [] = Perm.rfl
partition-Perm ids (c ∷ cs) = elim (Bool-cases (holds ids c.id)) [
  | inl t ↦ rw t (Perm.cons c (partition-Perm ids cs))
  | inr f ↦ rw f (
      Perm.trans (perm_middle (chosen_by ids cs) (spared_by ids cs))
        (Perm.cons c (partition-Perm ids cs)))
]

-- For the same list of ids, what --only keeps and what --skip keeps together make up the checks,
-- each exactly once: the first have a listed id, the others have none.
pub filter_checks-partition :
    (checks : List Check) (x : Text) (ids : List Text) (o s : List Check)
    → filter_checks checks (x ∷ ids) [] ≡ ok o
    → filter_checks checks [] (x ∷ ids) ≡ ok s
    → Perm (o ++ s) checks
      × All (λ (c : Check). holds (x ∷ ids) c.id ≡ true) o
      × All (λ (c : Check). holds (x ∷ ids) c.id ≡ false) s
unfolding filter_checks
filter_checks-partition checks x ids o s h g =
    let o_is : chosen_by (x ∷ ids) checks ≡ o = ground (arith, h) in
    let s_is : spared_by (x ∷ ids) checks ≡ s = ground (arith, g) in
    rw (← o_is, ← s_is)
      (partition-Perm (x ∷ ids) checks, chosen-All (x ∷ ids) checks, spared-All (x ∷ ids) checks)

chosen_by-none :
    (ids : List Text) (cs : List Check)
    → (is_empty (chosen_by ids cs) ≡ true) ↔ All (λ (c : Check). holds ids c.id ≡ false) cs
unfolding holds
chosen_by-none ids [] = (λ h. tt, λ h. refl)
chosen_by-none ids (c ∷ cs) = elim (Bool-cases (holds ids c.id)) [
  | inl t ↦ rw t (ground arith)
  | inr f ↦ rw f (ground (arith, chosen_by-none ids cs))
]

abbrev pub is_refused : Try (List Check) → Bool
is_refused (ok cs) = false
is_refused (err e) = true

-- The filters refuse a run exactly if --only lists ids and no check has one of them; --skip may leave
-- nothing to run.
pub filter_checks_refuses :
    (checks : List Check) (only skip : List Text)
    → (is_refused (filter_checks checks only skip) ≡ true)
      ↔ (only ≢ []) × All (λ (c : Check). holds only c.id ≡ false) checks
unfolding filter_checks
filter_checks_refuses checks [] [] = ground arith
filter_checks_refuses checks [] (y ∷ skip) = ground arith
filter_checks_refuses checks (x ∷ only) skip = ground (arith, chosen_by-none (x ∷ only) checks)

-- An id as parseCSVFilter yields it.
pub record IsToken (w : Text) : Type 0 where
  pub no_comma : Free is_comma w
  pub trimmed : trim_space w ≡ w
  pub not_empty : is_empty w ≡ false

parts-IsToken : (ws : List Text) → All IsToken ws → parts ws ≡ ws
unfolding parts
parts-IsToken [] h = refl
parts-IsToken (w ∷ ws) (t, h) = rw (t.trimmed, t.not_empty, parts-IsToken ws h) refl

no_commas : (ws : List Text) → All IsToken ws → All (Free is_comma) ws
no_commas [] h = tt
no_commas (w ∷ ws) (t, h) = (t.no_comma, no_commas ws h)

join_not_empty :
    (w : Text) (ws : List Text) → is_empty w ≡ false → is_empty (join (b',' ∷ []) (w ∷ ws)) ≡ false
unfolding join
join_not_empty [] ws h = absurd (cc)
join_not_empty (c ∷ w) [] h = refl
join_not_empty (c ∷ w) (v ∷ ws) h = refl

-- Ids without commas and without blanks at their ends that are joined by commas are parsed back.
pub parse_csv_filter-join :
    (w : Text) (ws : List Text) (field : Text)
    → All IsToken (w ∷ ws)
    → parse_csv_filter (join (b',' ∷ []) (w ∷ ws)) field ≡ ok (w ∷ ws)
unfolding parse_csv_filter
parse_csv_filter-join w ws field h =
    rw
      (
        split-join is_comma b',' w ws refl (no_commas (w ∷ ws) h),
        parts-IsToken (w ∷ ws) h,
        join_not_empty w ws h.0.not_empty,
      )
      refl
