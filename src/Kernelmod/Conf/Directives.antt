-- ===== src/Kernelmod/Conf/Directives.antt =====
-- Directives, and the order of their line numbers: what internal/kernelmod/conf.go returns.
use copyfail_validation.Base.{
  ℕ, ◌≤◌, ◌<◌, List, [], ◌∷◌, ◌++◌, ◌⊎◌, inl, inr, ◌≡◌, refl, arith, All, All-append,
}
use copyfail_validation.Text.{Text, fields}
use copyfail_validation.Text.Laws.{IsWord, fields-IsWord}
use copyfail_validation.Errors.{Error, ok, err}
use copyfail_validation.Kernelmod.Conf.{
  ConfDirective, ConfState, continue, abort, directive_of, parse_conf_directive_line, emit,
  malformed_line,
}

-- A directive of the file: its source, and words with no white space in them.
pub record IsDirective (source : Text) (d : ConfDirective) : Type 0 where
  pub from : d.source ≡ source
  pub kind_word : IsWord d.kind
  pub module_word : IsWord d.module_name
  pub arg_words : All IsWord d.args

-- Line numbers rise strictly, from above `n` on.
abbrev pub Rises : ℕ → List ConfDirective → Type 0
Rises n [] = Unit
Rises n (d ∷ ds) = (n < d.line_num) × Rises d.line_num ds

abbrev pub last_line : ℕ → List ConfDirective → ℕ
last_line n [] = n
last_line n (d ∷ ds) = last_line d.line_num ds

pub last_line-append :
    (n : ℕ) (ds : List ConfDirective) (d : ConfDirective) → last_line n (ds ++ d ∷ []) ≡ d.line_num
last_line-append n [] d = refl
last_line-append n (c ∷ ds) d = last_line-append c.line_num ds d

pub Rises-append :
    (n : ℕ) (ds : List ConfDirective) (d : ConfDirective)
    → Rises n ds
    → last_line n ds < d.line_num
    → Rises n (ds ++ d ∷ [])
Rises-append n [] d h l = (l, tt)
Rises-append n (c ∷ ds) d h l = (h.0, Rises-append c.line_num ds d h.1 l)

-- The directives of `count` lines of `source`.
pub record AreDirectives (source : Text) (count : ℕ) (ds : List ConfDirective) : Type 0 where
  pub well_formed : All (IsDirective source) ds
  pub rises : Rises 0 ds
  pub within : last_line 0 ds ≤ count

pub directive_of-cases :
    (ws : List Text) (source : Text) (n : ℕ)
    → All IsWord ws
    → ((e : Error) × (directive_of ws source n ≡ err e))
      ⊎ ((d : ConfDirective) × (directive_of ws source n ≡ ok d)
          × IsDirective source d
          × (d.line_num ≡ n))
unfolding directive_of
directive_of-cases [] source n h = inl (_, refl)
directive_of-cases (k ∷ []) source n h = inl (_, refl)
directive_of-cases (k ∷ m ∷ args) source n h =
    inr (
      _,
      refl,
      record { from = refl; kind_word = h.0; module_word = h.1.0; arg_words = h.1.1 },
      refl,
    )

pub emit-cases :
    (source : Text) (s : ConfState) (joined : Text) (n : ℕ)
    → ((e : Error) × (emit source s joined n ≡ abort s.directives e))
      ⊎ ((d : ConfDirective) × (emit source s joined n
            ≡ continue (record s { directives = s.directives ++ d ∷ [] }))
          × IsDirective source d
          × (d.line_num ≡ n))
unfolding emit parse_conf_directive_line
emit-cases source s joined n =
    elim (directive_of-cases (fields joined) source n (fields-IsWord joined)) [
      | inl (e, q) ↦ inl (malformed_line source n joined e, rw (q, emit, parse_conf_directive_line))
      | inr (d, q, i, l) ↦ inr (d, (rw (q, emit, parse_conf_directive_line)), i, l)
    ]

pub AreDirectives-append :
    {source : Text} {count : ℕ} {ds : List ConfDirective} (d : ConfDirective)
    → AreDirectives source count ds
    → IsDirective source d
    → last_line 0 ds < d.line_num
    → d.line_num ≤ count
    → AreDirectives source count (ds ++ d ∷ [])
AreDirectives-append {source} {ds} d a i l w = record {
  well_formed = All-append (IsDirective source) ds (d ∷ []) a.well_formed (i, tt);
  rises = Rises-append 0 ds d a.rises l;
  within = rw (last_line-append 0 ds d) w;
}

pub AreDirectives-later :
    {source : Text} {count more : ℕ} {ds : List ConfDirective}
    → AreDirectives source count ds
    → count ≤ more
    → AreDirectives source more ds
AreDirectives-later a h = record {
  well_formed = a.well_formed;
  rises = a.rises;
  within = omega (arith, a.within);
}
