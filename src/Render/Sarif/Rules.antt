-- ===== src/Render/Sarif/Rules.antt =====
-- The rules and the results of the SARIF log of internal/render/sarif.go belong together.
use copyfail_validation.Base.{
  List, [], ◌∷◌, Bool, false, Option, none, some, if◌then◌else◌, ◌≡◌, refl, ap, ◌∙◌, Bool-cases,
  inl, inr,
}
use mathlib.Core.Option
use copyfail_validation.Base.Sort.{insert_by, sort_by, IsSorted, Ascends, sort_by-IsSorted}
use copyfail_validation.Text.{Text, equal}
use copyfail_validation.Text.Laws.{equal_iff}
use copyfail_validation.Text.Order.{less, less_asymm}
use copyfail_validation.Report.{Result}
use copyfail_validation.Render.Sarif.{
  SarifRule, first_of_each, by_id, rule_of, map_rules, build_sarif_rules,
}
use copyfail_validation.Render.Sarif.Firsts.{
  first_with, Distinct, equal_flip, first_with-first_of_each, first_of_each-Distinct,
}

-- The first rule with an id, and the rules behind it that have the id too.
abbrev pub rule_with : Text → List SarifRule → Option SarifRule
rule_with id [] = none
rule_with id (r ∷ rs) = if equal r.id id then some r else rule_with id rs

-- No two rules have one id.
abbrev pub IdsDiffer : List SarifRule → Type 0
IdsDiffer [] = Unit
IdsDiffer (r ∷ rs) = (rule_with r.id rs ≡ none) × IdsDiffer rs

swap_apart :
    (id : Text) (a b : Result) (o : Option Result)
    → equal b.check_id a.check_id ≡ false
    → (if equal b.check_id id then some b else (if equal a.check_id id then some a else o))
      ≡ (if equal a.check_id id then some a else (if equal b.check_id id then some b else o))
swap_apart id a b o f = elim (Bool-cases (equal b.check_id id)) [
  | inl e ↦
      let other : equal a.check_id id ≡ false =
        rw (← (equal_iff b.check_id id).0 e) (equal_flip b.check_id a.check_id f) in
      rw (e, other) refl
  | inr h ↦ rw h refl
]

-- The head apart from the others, and the first of the others.
apart :
    (id : Text) (x : Result) (xs : List Result)
    → first_with id (x ∷ xs) ≡ none
    → (equal x.check_id id ≡ false) × (first_with id xs ≡ none)
apart id x xs n = elim (Bool-cases (equal x.check_id id)) [
  | inl e ↦ absurd (cc (rw e at n))
  | inr f ↦ (f, rw f at n)
]

first_with-insert_by :
    (id : Text) (r : Result) (xs : List Result)
    → first_with r.check_id xs ≡ none
    → first_with id (insert_by by_id r xs) ≡ first_with id (r ∷ xs)
unfolding insert_by
first_with-insert_by id r [] n = refl
first_with-insert_by id r (x ∷ xs) n = elim (Bool-cases (by_id x r)) [
  | inr g ↦ rw g refl
  | inl l ↦
      let (f, m) = apart r.check_id x xs n in
      rw (l, first_with-insert_by id r xs m) (swap_apart id r x (first_with id xs) f)
]

insert_by-Distinct :
    (r : Result) (xs : List Result)
    → first_with r.check_id xs ≡ none
    → Distinct xs
    → Distinct (insert_by by_id r xs)
unfolding insert_by
insert_by-Distinct r [] n d = (refl, tt)
insert_by-Distinct r (x ∷ xs) n (h, d) = elim (Bool-cases (by_id x r)) [
  | inr g ↦ rw g (n, (h, d))
  | inl l ↦
      let (f, m) = apart r.check_id x xs n in
      rw l (
        first_with-insert_by x.check_id r xs m ∙ rw (equal_flip x.check_id r.check_id f) h,
        insert_by-Distinct r xs m d,
      )
]

-- Sorting keeps what is found by an id.
first_with-sort_by :
    (id : Text) (xs : List Result)
    → Distinct xs
    → first_with id (sort_by by_id xs) ≡ first_with id xs
unfolding sort_by
first_with-sort_by id [] d = refl
first_with-sort_by id (x ∷ xs) (h, d) =
    first_with-insert_by id x (sort_by by_id xs) (first_with-sort_by x.check_id xs d ∙ h)
    ∙ rw (first_with-sort_by id xs d) refl

sort_by-Distinct : (xs : List Result) → Distinct xs → Distinct (sort_by by_id xs)
unfolding sort_by
sort_by-Distinct [] d = tt
sort_by-Distinct (x ∷ xs) (h, d) =
    insert_by-Distinct x (sort_by by_id xs) (first_with-sort_by x.check_id xs d ∙ h)
      (sort_by-Distinct xs d)

rule_with-map_rules :
    (id : Text) (xs : List Result)
    → rule_with id (map_rules xs) ≡ Option.map rule_of (first_with id xs)
rule_with-map_rules id [] = refl
rule_with-map_rules id (x ∷ xs) = elim (Bool-cases (equal x.check_id id)) [
  | inl e ↦ rw e refl
  | inr f ↦ rw f (rule_with-map_rules id xs)
]

map_rules-IdsDiffer : (xs : List Result) → Distinct xs → IdsDiffer (map_rules xs)
map_rules-IdsDiffer [] d = tt
map_rules-IdsDiffer (x ∷ xs) (h, d) =
    (rule_with-map_rules x.check_id xs ∙ rw h refl, map_rules-IdsDiffer xs d)

abbrev pub rule_below : SarifRule → SarifRule → Bool
rule_below a b = less a.id b.id

map_rules-IsSorted : (xs : List Result) → IsSorted by_id xs → IsSorted rule_below (map_rules xs)
map_rules-IsSorted [] s = tt
map_rules-IsSorted (x ∷ xs) s = ascends x xs s
  where
    ascends :
        (x : Result) (xs : List Result)
        → Ascends by_id x xs
        → Ascends rule_below (rule_of x) (map_rules xs)
    ascends x [] s = tt
    ascends x (y ∷ ys) (h, s) = (h, ascends y ys s)

-- The rules of the SARIF log: for every id, the rule with the id is made of the first result
-- that has the id, and there is none when no result has it; no two rules have one id; the rules
-- are sorted by their ids.
pub build_sarif_rules_lem :
    (results : List Result)
    → ((id : Text)
        → rule_with id (build_sarif_rules results) ≡ Option.map rule_of (first_with id results))
      × IdsDiffer (build_sarif_rules results)
      × IsSorted rule_below (build_sarif_rules results)
unfolding build_sarif_rules
build_sarif_rules_lem results =
    let kept = first_of_each [] results in
    let distinct = first_of_each-Distinct [] results tt in
    (
      λ id.
          rule_with-map_rules id (sort_by by_id kept)
          ∙ ap (Option.map rule_of)
              (first_with-sort_by id kept distinct ∙ first_with-first_of_each id [] results),
      map_rules-IdsDiffer (sort_by by_id kept) (sort_by-Distinct kept distinct),
      map_rules-IsSorted (sort_by by_id kept)
          (sort_by-IsSorted by_id (λ a b. less_asymm a.check_id b.check_id) kept),
    )
