-- ===== src/Redact/Whole.antt =====
-- What internal/redact/redact.go writes does not depend on the secrets that it replaces.
use mathlib.Core.Path.{subst}
use mathlib.Core.List.{append_assoc}
use copyfail_validation.Base.{
  ℕ, zero, suc, [], ◌∷◌, ◌++◌, ◌<◌, ◌≤◌, true, false, none, some, is_some, length, ◌≡◌, refl, sym,
  ap, ap₂, ◌∙◌, arith, Bool-cases, inl, inr,
}
use copyfail_validation.Text.{Text, equal}
use copyfail_validation.Text.Laws.{Free}
use copyfail_validation.Text.Words.{Free-append}
use copyfail_validation.Redact.{
  keywords, Match, is_blank, is_separator, match_assignment, match_here, redact_match,
  before_separator, marked, replace_all, behind_first, redact,
}
use copyfail_validation.Redact.Secrecy.{
  newline, IsSecret, EndsLine, Alike, neither, inside, across, sep_blank, match_any-Alike,
  match_spaced_value-IsSecret,
}
use copyfail_validation.Redact.Keywords.{
  is_keyword, IsSpace, with_code_some, keywords-Free, keyword-Free, match_any_some,
}

no_break : (m rest : Text) → ¬ Free newline (m ++ b'\n' ∷ rest)
no_break [] rest f = cc f.0
no_break (c ∷ m) rest f = no_break m rest f.1

newline_before :
    (m rest p w : Text) → p ++ w ≡ m ++ b'\n' ∷ rest → Free newline w → length m < length p
newline_before m rest [] w e f = absurd (no_break m rest (rw e at f))
newline_before [] rest (x ∷ p) w e f = omega arith
newline_before (y ∷ m) rest (x ∷ p) w e f =
    let same : p ++ w ≡ m ++ b'\n' ∷ rest = cc e in ground (arith, newline_before m rest p w same f)

behind_first_short :
    (m rest p w : Text) → p ++ w ≡ m ++ b'\n' ∷ rest → Free newline w → behind_first m < length p
behind_first_short [] rest p w e f = newline_before [] rest p w e f
behind_first_short (y ∷ m) rest p w e f = ground (arith, newline_before (y ∷ m) rest p w e f)

-- Behind what a match covers, the replacement goes on.
replace_all-length : (m s : Text) → replace_all (length m) (m ++ s) ≡ replace_all 0 s
unfolding replace_all
replace_all-length [] s = refl
replace_all-length (c ∷ m) s = replace_all-length m s

skipped : (c : ℕ) (s : Text) (skip : ℕ) → replace_all (suc skip) (c ∷ s) ≡ replace_all skip s
unfolding replace_all
skipped c s skip = refl

replaced :
    (c : ℕ) (s m rest : Text)
    → match_here (c ∷ s) ≡ some (m, rest)
    → replace_all 0 (c ∷ s) ≡ redact_match m ++ replace_all (behind_first m) s
unfolding replace_all
replaced c s m rest e = rw (e, replace_all) refl

kept : (c : ℕ) (s : Text) → match_here (c ∷ s) ≡ none → replace_all 0 (c ∷ s) ≡ c ∷ replace_all 0 s
unfolding replace_all
kept c s e = rw (e, replace_all) refl

module _ (sep : ℕ) (separates : is_separator sep ≡ true) (v w after : Text) (hv : IsSecret v)
    (hw : IsSecret w) (ends : EndsLine after) where
  before_separator_same :
      (u : Text) → before_separator (u ++ sep ∷ v) ≡ before_separator (u ++ sep ∷ w)
  unfolding before_separator
  before_separator_same [] = rw separates refl
  before_separator_same (c ∷ u) = elim (Bool-cases (is_separator c)) [
    | inl s ↦ rw s refl
    | inr n ↦ rw (n, before_separator_same u) refl
  ]

  redact_match_same : (u : Text) → redact_match (u ++ sep ∷ v) ≡ redact_match (u ++ sep ∷ w)
  unfolding redact_match
  redact_match_same u = ap marked (before_separator_same u)

  match_assignment_some :
      (spaces : Text)
      → IsSpace spaces
      → is_some (match_assignment (spaces ++ sep ∷ (v ++ after))) ≡ true
  unfolding match_assignment
  match_assignment_some [] h =
      rw
        (
          sep_blank sep separates v w after hv hw ends,
          separates,
          match_spaced_value-IsSecret v after hv ends,
        )
        refl
  match_assignment_some (c ∷ spaces) h =
      let blank : is_blank c ≡ true = ground (arith, h.0) in
      rw blank (with_code_some c _ (match_assignment_some spaces h.1))

  -- Where the match covers the secrets, the replacement goes on behind them.
  crossed :
      (c : ℕ) (u : Text)
      → match_here (c ∷ (u ++ sep ∷ (v ++ after))) ≡ some (c ∷ (u ++ sep ∷ v), after)
      → match_here (c ∷ (u ++ sep ∷ (w ++ after))) ≡ some (c ∷ (u ++ sep ∷ w), after)
      → replace_all 0 (c ∷ (u ++ sep ∷ (v ++ after)))
        ≡ replace_all 0 (c ∷ (u ++ sep ∷ (w ++ after)))
  crossed c u e f =
      replaced c _ (c ∷ (u ++ sep ∷ v)) after e
      ∙ ap₂ (λ s t. s ++ t) (redact_match_same (c ∷ u))
          (ap (replace_all (length (u ++ sep ∷ v))) (sym (append_assoc u (sep ∷ v) after))
            ∙ replace_all-length (u ++ sep ∷ v) after
            ∙ sym (replace_all-length (u ++ sep ∷ w) after)
            ∙ ap (replace_all (length (u ++ sep ∷ w))) (append_assoc u (sep ∷ w) after))
      ∙ sym (replaced c _ (c ∷ (u ++ sep ∷ w)) after f)

  match_here-Alike :
      (t : Text)
      → Alike sep separates v w after hv hw ends t
          (match_here (t ++ sep ∷ (v ++ after)))
          (match_here (t ++ sep ∷ (w ++ after)))
  unfolding match_here
  match_here-Alike t = match_any-Alike sep separates v w after hv hw ends keywords t keywords-Free

  announced :
      {a b : Match} (c : ℕ) (u : Text)
      → Free newline (c ∷ u)
      → Alike sep separates v w after hv hw ends (c ∷ u) a b
      → match_here (c ∷ (u ++ sep ∷ (v ++ after))) ≡ a
      → match_here (c ∷ (u ++ sep ∷ (w ++ after))) ≡ b
      → is_some a ≡ true
      → replace_all 0 (c ∷ (u ++ sep ∷ (v ++ after)))
        ≡ replace_all 0 (c ∷ (u ++ sep ∷ (w ++ after)))
  announced c u f neither ea eb h = absurd (cc h)
  announced c u f (inside m rest e) ea eb h = absurd (no_break m rest (subst (Free newline) e f))
  announced c u f across ea eb h = crossed c u ea eb

  earlier :
      {a b : Match} (c : ℕ) (p q : Text)
      → Free newline q
      → Alike sep separates v w after hv hw ends (c ∷ (p ++ q)) a b
      → match_here (c ∷ ((p ++ q) ++ sep ∷ (v ++ after))) ≡ a
      → match_here (c ∷ ((p ++ q) ++ sep ∷ (w ++ after))) ≡ b
      → ((skip : ℕ)
          → skip ≤ length p
          → replace_all skip ((p ++ q) ++ sep ∷ (v ++ after))
            ≡ replace_all skip ((p ++ q) ++ sep ∷ (w ++ after)))
      → replace_all 0 (c ∷ ((p ++ q) ++ sep ∷ (v ++ after)))
        ≡ replace_all 0 (c ∷ ((p ++ q) ++ sep ∷ (w ++ after)))
  earlier c p q f neither ea eb later =
      kept c _ ea ∙ ap (λ t. c ∷ t) (later 0 (omega arith)) ∙ sym (kept c _ eb)
  earlier c p q f (inside m rest e) ea eb later =
      replaced c _ m _ ea
      ∙ ap (λ t. redact_match m ++ t)
          (later (behind_first m) (ground (arith, behind_first_short m rest (c ∷ p) q e f)))
      ∙ sym (replaced c _ m _ eb)
  earlier c p q f across ea eb later = crossed c (p ++ q) ea eb

  -- The replacement in the two texts, from any place before the announcement on.
  replace_all_same :
      (p : Text) (c : ℕ) (u : Text) (skip : ℕ)
      → Free newline (c ∷ u)
      → is_some (match_here (c ∷ (u ++ sep ∷ (v ++ after)))) ≡ true
      → skip ≤ length p
      → replace_all skip ((p ++ c ∷ u) ++ sep ∷ (v ++ after))
        ≡ replace_all skip ((p ++ c ∷ u) ++ sep ∷ (w ++ after))
  replace_all_same [] c u zero f h b = announced c u f (match_here-Alike (c ∷ u)) refl refl h
  replace_all_same [] c u (suc skip) f h b = absurd (omega arith)
  replace_all_same (x ∷ p) c u (suc skip) f h b =
      skipped x _ skip
      ∙ replace_all_same p c u skip f h (ground (arith, b))
      ∙ sym (skipped x _ skip)
  replace_all_same (x ∷ p) c u zero f h b =
      earlier x p (c ∷ u) f (match_here-Alike (x ∷ (p ++ c ∷ u))) refl refl
        (λ skip. replace_all_same p c u skip f h)

spaces-Free : (spaces : Text) → IsSpace spaces → Free newline spaces
spaces-Free [] h = tt
spaces-Free (c ∷ spaces) h = (ground (arith, h.0), spaces-Free spaces h.1)

regroup : (a b c d : Text) → a ++ (b ++ (c ++ d)) ≡ (a ++ (b ++ c)) ++ d
regroup a b c d = ap (λ t. a ++ t) (sym (append_assoc b c d)) ∙ sym (append_assoc a (b ++ c) d)

not_nil : is_keyword [] ≡ false
unfolding equal
not_nil = refl

-- Where a keyword, blanks on its line and a separator announce a value, the text that Redact writes is
-- the same for any two values that go to the end of the line and are not blank, whatever stands before
-- and whatever follows: the output tells nothing of the secret, not even its length.
pub redact_same :
    (before key spaces : Text) (sep : ℕ) (v w after : Text)
    → is_keyword key ≡ true
    → IsSpace spaces
    → is_separator sep ≡ true
    → IsSecret v
    → IsSecret w
    → EndsLine after
    → redact (before ++ (key ++ (spaces ++ sep ∷ (v ++ after))))
      ≡ redact (before ++ (key ++ (spaces ++ sep ∷ (w ++ after))))
unfolding redact match_here
redact_same before [] spaces sep v w after k hs hsep hv hw ends = absurd (cc (not_nil, k))
redact_same before (c ∷ key) spaces sep v w after k hs hsep hv hw ends =
    let named = c ∷ key in
    let found : is_some (match_here (c ∷ ((key ++ spaces) ++ sep ∷ (v ++ after)))) ≡ true =
      subst (λ t. is_some (match_here (c ∷ t)) ≡ true)
        (sym (append_assoc key spaces (sep ∷ (v ++ after))))
        (match_any_some named (spaces ++ sep ∷ (v ++ after)) keywords k
          (match_assignment_some sep hsep v w after hv hw ends spaces hs)) in
    ap (replace_all 0) (regroup before named spaces (sep ∷ (v ++ after)))
    ∙ replace_all_same sep hsep v w after hv hw ends before c (key ++ spaces) 0
        (Free-append newline named spaces (keyword-Free named k) (spaces-Free spaces hs)) found
        (omega arith)
    ∙ sym (ap (replace_all 0) (regroup before named spaces (sep ∷ (w ++ after))))
