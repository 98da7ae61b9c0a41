-- ===== src/Hostinfo/OsRelease/Quoting.antt =====
-- Values that are quoted for an os-release file, and read back by internal/hostinfo/osrelease.go.
use copyfail_validation.Base.{
  ℕ, [], ◌∷◌, ◌++◌, true, false, some, ◌==◌, ◌≡◌, refl, sym, ap, arith, Bool-cases, inl, inr,
  if◌then◌else◌, ◌∙◌,
}
use copyfail_validation.Text.{Text, drop_last}
use copyfail_validation.Hostinfo.OsRelease.{
  is_letter, is_digit, key_tail, is_valid_key, is_escaped, expand_loop, contains, expand_escapes,
  ends_in, unquote, cut, on_cut, split_key_value,
}

-- A backslash before every character that one may stand before.
unfoldable pub escape : Text → Text
unfolding is_escaped
escape [] = []
escape (c ∷ s) = let rest = escape s in if is_escaped c then b'\\' ∷ c ∷ rest else c ∷ rest

abbrev pub quote : Text → Text
unfolding escape
quote v = b'"' ∷ (escape v ++ b'"' ∷ [])

expand_loop-plain :
    (c : ℕ) (s : Text) → (c == b'\\') ≡ false → expand_loop (c ∷ s) ≡ c ∷ expand_loop s
unfolding expand_loop
expand_loop-plain c [] h = refl
expand_loop-plain c (d ∷ s) h = rw h refl

expand_loop-escape : (s : Text) → expand_loop (escape s) ≡ s
unfolding escape expand_loop is_escaped
expand_loop-escape [] = refl
expand_loop-escape (c ∷ s) = elim (Bool-cases (is_escaped c)) [
  | inl t ↦ rw t (ground (arith, t, expand_loop-escape s))
  | inr f ↦
      rw f (expand_loop-plain c (escape s) (ground (arith, f)) ∙ ap (◌∷◌ c) (expand_loop-escape s))
]

expand_loop-contains : (s : Text) → contains b'\\' s ≡ false → expand_loop s ≡ s
unfolding expand_loop
expand_loop-contains [] h = refl
expand_loop-contains (c ∷ s) h =
    let (now, later) : ((c == b'\\') ≡ false) × (contains b'\\' s ≡ false) = ground (arith, h) in
    expand_loop-plain c s now ∙ ap (◌∷◌ c) (expand_loop-contains s later)

-- The test for a backslash only saves work.
expand_escapes-loop : (s : Text) → expand_escapes s ≡ expand_loop s
unfolding expand_escapes
expand_escapes-loop s = elim (Bool-cases (contains b'\\' s)) [
  | inl t ↦ rw t refl
  | inr f ↦ rw f (sym (expand_loop-contains s f))
]

ends_in-snoc : (c : ℕ) (s : Text) → ends_in c (s ++ c ∷ []) ≡ true
unfolding ends_in
ends_in-snoc c [] = ground arith
ends_in-snoc c (d ∷ []) = ground arith
ends_in-snoc c (d ∷ e ∷ s) = ends_in-snoc c (e ∷ s)

drop_last-snoc : (c : ℕ) (s : Text) → drop_last (s ++ c ∷ []) ≡ s
unfolding drop_last
drop_last-snoc c [] = refl
drop_last-snoc c (d ∷ []) = refl
drop_last-snoc c (d ∷ e ∷ s) = ap (◌∷◌ d) (drop_last-snoc c (e ∷ s))

unquote-quote : (v : Text) → unquote (quote v) ≡ some v
unfolding unquote quote
unquote-quote v =
    rw
      (
        ends_in-snoc b'"' (escape v),
        drop_last-snoc b'"' (escape v),
        expand_escapes-loop (escape v),
        expand_loop-escape v,
      )
      refl

key_tail-equals : (key : Text) → key_tail key ≡ true → contains b'=' key ≡ false
unfolding key_tail is_letter is_digit
key_tail-equals [] h = refl
key_tail-equals (c ∷ s) h = ground (arith, key_tail-equals s)

is_valid_key-tail : (key : Text) → is_valid_key key ≡ true → key_tail key ≡ true
unfolding is_valid_key key_tail
is_valid_key-tail [] h = absurd (cc)
is_valid_key-tail (c ∷ s) h = ground (arith, h)

cut-front : (c : ℕ) (s t : Text) → contains c s ≡ false → cut c (s ++ c ∷ t) ≡ some (s, t)
unfolding cut
cut-front c [] t h = ground arith
cut-front c (d ∷ s) t h = ground (arith, h, cut-front c s t)

-- A line that assigns a value in double quotes, with a backslash before each of `"`, `'`, `\`, `$`
-- and the backquote, is split into its key and that very value, whatever the value holds.
pub split_key_value-quote :
    (key v : Text)
    → is_valid_key key ≡ true
    → split_key_value (key ++ b'=' ∷ quote v) ≡ some (key, v)
unfolding split_key_value
split_key_value-quote key v h =
    rw
      (
        cut-front b'=' key (quote v) (key_tail-equals key (is_valid_key-tail key h)),
        on_cut,
        h,
        unquote-quote v,
      )
      refl
