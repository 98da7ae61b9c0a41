-- ===== src/Render/Sarif/Firsts.antt =====
-- The results that buildSARIFRules of internal/render/sarif.go keeps: the first with each id.
use copyfail_validation.Base.{
  List, [], ◌∷◌, ◌++◌, true, false, Option, none, some, if◌then◌else◌, ◌≡◌, refl, sym, ap, ◌∙◌,
  Bool-cases, Option-cases, inl, inr, is_some,
}
use copyfail_validation.Text.{Text, equal}
use copyfail_validation.Text.Laws.{equal_iff}
use copyfail_validation.Report.{Result}
use copyfail_validation.Render.Sarif.{is_seen, first_of_each}

-- The first result with an id.
abbrev pub first_with : Text → List Result → Option Result
first_with id [] = none
first_with id (r ∷ rs) = if equal r.check_id id then some r else first_with id rs

abbrev pub Distinct : List Result → Type 0
Distinct [] = Unit
Distinct (r ∷ rs) = (first_with r.check_id rs ≡ none) × Distinct rs

abbrev pub or_else : Option Result → Option Result → Option Result
or_else (some a) b = some a
or_else none b = b

first_with-append :
    (id : Text) (xs ys : List Result)
    → first_with id (xs ++ ys) ≡ or_else (first_with id xs) (first_with id ys)
first_with-append id [] ys = refl
first_with-append id (x ∷ xs) ys = elim (Bool-cases (equal x.check_id id)) [
  | inl e ↦ rw e refl
  | inr n ↦ rw n (first_with-append id xs ys)
]

is_seen-first_with : (id : Text) (rs : List Result) → is_seen id rs ≡ is_some (first_with id rs)
unfolding is_seen
is_seen-first_with id [] = refl
is_seen-first_with id (r ∷ rs) = elim (Bool-cases (equal r.check_id id)) [
  | inl e ↦ rw e refl
  | inr n ↦ rw n (is_seen-first_with id rs)
]

unseen : (id : Text) (rs : List Result) → first_with id rs ≡ none → is_seen id rs ≡ false
unseen id rs n = is_seen-first_with id rs ∙ ap is_some n

seen_with :
    (id : Text) (rs : List Result) (r : Result) → first_with id rs ≡ some r → is_seen id rs ≡ true
seen_with id rs r y = is_seen-first_with id rs ∙ ap is_some y

first_with-snoc :
    (id : Text) (seen rs : List Result) (r : Result)
    → or_else (first_with id (seen ++ r ∷ [])) (first_with id rs)
      ≡ or_else (first_with id seen) (first_with id (r ∷ rs))
first_with-snoc id seen rs r =
    rw (first_with-append id seen (r ∷ [])) (elim (Option-cases (first_with id seen)) [
      | inr (q, y) ↦ rw y refl
      | inl n ↦
          rw n (elim (Bool-cases (equal r.check_id id)) [ inl e ↦ rw e refl | inr d ↦ rw d refl ])
    ])

first_with-seen :
    (id : Text) (seen rs : List Result) (r q : Result)
    → first_with r.check_id seen ≡ some q
    → or_else (first_with id seen) (first_with id rs)
      ≡ or_else (first_with id seen) (first_with id (r ∷ rs))
first_with-seen id seen rs r q y = elim (Bool-cases (equal r.check_id id)) [
  | inl e ↦
      let there : first_with id seen ≡ some q = rw (← (equal_iff r.check_id id).0 e) y in
      rw there refl
  | inr d ↦ rw d refl
]

-- The first result with an id, of those seen and those to come, is the one that is kept.
pub first_with-first_of_each :
    (id : Text) (seen rs : List Result)
    → first_with id (first_of_each seen rs) ≡ or_else (first_with id seen) (first_with id rs)
unfolding first_of_each
first_with-first_of_each id seen [] = elim (Option-cases (first_with id seen)) [
  | inl n ↦ rw n refl
  | inr (q, y) ↦ rw y refl
]
first_with-first_of_each id seen (r ∷ rs) = elim (Option-cases (first_with r.check_id seen)) [
  | inl n ↦
      rw (unseen r.check_id seen n)
        (first_with-first_of_each id (seen ++ r ∷ []) rs ∙ first_with-snoc id seen rs r)
  | inr (q, y) ↦
      rw (seen_with r.check_id seen q y)
        (first_with-first_of_each id seen rs ∙ first_with-seen id seen rs r q y)
]

pub equal_flip : (a b : Text) → equal a b ≡ false → equal b a ≡ false
equal_flip a b f = elim (Bool-cases (equal b a)) [
  | inl e ↦ cc ((equal_iff a b).1 (sym ((equal_iff b a).0 e)))
  | inr g ↦ g
]

Distinct-snoc :
    (xs : List Result) (r : Result)
    → Distinct xs
    → first_with r.check_id xs ≡ none
    → Distinct (xs ++ r ∷ [])
Distinct-snoc [] r d n = (refl, tt)
Distinct-snoc (x ∷ xs) r (h, d) n = elim (Bool-cases (equal x.check_id r.check_id)) [
  | inl e ↦ absurd (cc (rw e at n))
  | inr f ↦ (
    first_with-append x.check_id xs (r ∷ []) ∙ rw (h, equal_flip x.check_id r.check_id f) refl,
    Distinct-snoc xs r d (rw f at n),
  )
]

pub first_of_each-Distinct :
    (seen rs : List Result) → Distinct seen → Distinct (first_of_each seen rs)
unfolding first_of_each
first_of_each-Distinct seen [] d = d
first_of_each-Distinct seen (r ∷ rs) d = elim (Option-cases (first_with r.check_id seen)) [
  | inl n ↦
      rw (unseen r.check_id seen n)
        (first_of_each-Distinct (seen ++ r ∷ []) rs (Distinct-snoc seen r d n))
  | inr (q, y) ↦ rw (seen_with r.check_id seen q y) (first_of_each-Distinct seen rs d)
]
