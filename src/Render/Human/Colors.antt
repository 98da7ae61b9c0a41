-- ===== src/Render/Human/Colors.antt =====
-- The colors of internal/render/human.go add nothing to what the report says.
use mathlib.Core.List.{append-nil, append_assoc}
use copyfail_validation.Base.{
  ℕ, String, List, [], ◌∷◌, ◌++◌, Bool, true, false, ◌||◌, not, ◌==◌, if◌then◌else◌, ◌≡◌, refl, ap,
  ◌∙◌, sym, arith, All, is_empty,
}
use copyfail_validation.Text.{Text, codes}
use copyfail_validation.Text.Laws.{Free}
use copyfail_validation.Text.Words.{Free-append, is_free, is_free-Free}
use copyfail_validation.Text.Number.{is_digit}
use copyfail_validation.Text.Decimal.{format_ℕ, format_ℕ-is_digit}
use copyfail_validation.Report.{State, severity_text, Result, Summary, Report}
use copyfail_validation.Render.Human.{
  status_label, status_color, color_of, reset_after, ansi_reset, with_detail, detail_text,
  result_line, result_lines, verdict, verdict_color, passes, write_counts, counts_of, tally_line,
  footer, human_text,
}

-- A text without its escape sequences: each runs from ESC to the next `m`.
abbrev within : Bool → ℕ → Bool
within inside c = if inside then not (c == b'm') else c == 0x1b

unfoldable pub strip_from : Bool → Text → Text
strip_from inside [] = []
strip_from inside (c ∷ s) =
    let rest = strip_from (within inside c) s in if inside || c == 0x1b then rest else c ∷ rest

abbrev pub strip_colors : Text → Text
strip_colors = strip_from false

abbrev pub NoEscape : Text → Type 0
NoEscape = Free (λ c. c == 0x1b)

-- Before any text, the first text is stripped to the second.
abbrev StripsTo : Text → Text → Type 0
StripsTo s t = (rest : Text) → strip_colors (s ++ rest) ≡ t ++ strip_colors rest

strips_plain : (s : Text) → NoEscape s → StripsTo s s
unfolding strip_from
strips_plain [] h rest = refl
strips_plain (c ∷ s) h rest = rw h.0 (ap (◌∷◌ c) (strips_plain s h.1 rest))

strips-append : (s t u v : Text) → StripsTo s u → StripsTo t v → StripsTo (s ++ t) (u ++ v)
strips-append s t u v hs ht rest =
    ap strip_colors (append_assoc s t rest)
    ∙ hs (t ++ rest)
    ∙ ap (◌++◌ u) (ht rest)
    ∙ sym (append_assoc u v (strip_colors rest))

strips_color : (s : State) → StripsTo (color_of s) []
unfolding strip_from
strips_color State.pass rest = refl
strips_color State.fail rest = refl
strips_color State.skip rest = refl
strips_color State.error rest = refl
strips_color (State.other t) rest = refl

strips_verdict_color : (b : Bool) → StripsTo (verdict_color b true) []
unfolding strip_from verdict_color
strips_verdict_color true rest = refl
strips_verdict_color false rest = refl

strips_reset : StripsTo ansi_reset []
unfolding strip_from
strips_reset rest = refl

digit-NoEscape : (s : Text) → All (λ c. is_digit c ≡ true) s → NoEscape s
unfolding is_digit
digit-NoEscape [] h = tt
digit-NoEscape (c ∷ s) h = (ground (arith, h.0), digit-NoEscape s h.1)

strips_number : (n : ℕ) → StripsTo (format_ℕ n) (format_ℕ n)
strips_number n = strips_plain (format_ℕ n) (digit-NoEscape (format_ℕ n) (format_ℕ-is_digit n))

strips_label : (s : State) → StripsTo (status_label s) (status_label s)
unfolding status_label strip_from
strips_label State.pass rest = refl
strips_label State.fail rest = refl
strips_label State.skip rest = refl
strips_label State.error rest = refl
strips_label (State.other t) rest = refl

strips_verdict : (b : Bool) → StripsTo (verdict b) (verdict b)
unfolding strip_from
strips_verdict true rest = refl
strips_verdict false rest = refl

strips_detail : (s : Text) → NoEscape s → StripsTo (with_detail s) (with_detail s)
unfolding with_detail
strips_detail [] h rest = refl
strips_detail (c ∷ s) h rest = strips_plain (codes ": " ++ (c ∷ s)) (refl, (refl, h)) rest

-- What a result writes itself has no escape sequences.
pub record IsPlain (quote : Text → Text) (r : Result) : Type 0 where
  pub id_plain : NoEscape r.check_id
  pub severity_plain : NoEscape (severity_text r.severity)
  pub detail_plain : NoEscape (detail_text quote r)

strips_literal_of : (s t u : Text) → NoEscape s → StripsTo t u → StripsTo (s ++ t) (s ++ u)
strips_literal_of s t u h k = strips-append s t s u (strips_plain s h) k

-- Text between a color and its reset.
strips_colored :
    (color s t u : Text)
    → StripsTo color []
    → is_empty color ≡ false
    → StripsTo s s
    → StripsTo t u
    → StripsTo (color ++ (s ++ (reset_after color ++ t))) (s ++ u)
strips_colored [] s t u hc n hs ht = absurd (cc)
strips_colored (c ∷ color) s t u hc n hs ht =
    strips-append (c ∷ color) _ [] (s ++ u) hc
      (strips-append s (ansi_reset ++ t) s u hs (strips-append ansi_reset t [] u strips_reset ht))

color_nonempty : (s : State) → is_empty (color_of s) ≡ false
color_nonempty State.pass = refl
color_nonempty State.fail = refl
color_nonempty State.skip = refl
color_nonempty State.error = refl
color_nonempty (State.other t) = refl

verdict_color_nonempty : (b : Bool) → is_empty (verdict_color b true) ≡ false
unfolding verdict_color
verdict_color_nonempty true = refl
verdict_color_nonempty false = refl

strips_line :
    (quote : Text → Text) (r : Result)
    → IsPlain quote r
    → StripsTo (result_line quote true r) (result_line quote false r)
unfolding result_line status_color
strips_line quote r p =
    let detail =
      strips-append (with_detail (detail_text quote r)) (codes "\n")
        (with_detail (detail_text quote r)) (codes "\n")
        (strips_detail (detail_text quote r) p.detail_plain)
        (strips_plain (codes "\n") (refl, tt)) in
    let severity =
      strips_literal_of (severity_text r.severity) _ _ p.severity_plain
        (strips_literal_of (codes ")") _ _ (refl, tt) detail) in
    strips_colored (color_of r.state) (status_label r.state) _ _ (strips_color r.state)
      (color_nonempty r.state) (strips_label r.state)
      (strips_literal_of (codes "  ") _ _ (refl, (refl, tt))
        (strips_literal_of r.check_id _ _ p.id_plain
          (strips_literal_of (codes " (") _ _ (refl, (refl, tt)) severity)))

strips_lines :
    (quote : Text → Text) (rs : List Result)
    → All (IsPlain quote) rs
    → StripsTo (result_lines quote true rs) (result_lines quote false rs)
unfolding result_lines strip_from
strips_lines quote [] h rest = refl
strips_lines quote (r ∷ rs) h rest =
    strips-append (result_line quote true r) (result_lines quote true rs)
      (result_line quote false r) (result_lines quote false rs) (strips_line quote r h.0)
      (strips_lines quote rs h.1) rest

literal-NoEscape : (s : Text) → is_free (λ c. c == 0x1b) s ≡ true → NoEscape s
literal-NoEscape s h = is_free-Free (λ c. c == 0x1b) s h

number-NoEscape : (n : ℕ) → NoEscape (format_ℕ n)
number-NoEscape n = digit-NoEscape (format_ℕ n) (format_ℕ-is_digit n)

counts-NoEscape :
    (counts : List (String × ℕ)) (end_text : Text)
    → All (λ c. is_free (λ d. d == 0x1b) (codes c.0) ≡ true) counts
    → NoEscape end_text
    → NoEscape (write_counts counts end_text)
unfolding write_counts
counts-NoEscape [] end_text h k = k
counts-NoEscape ((label, n) ∷ counts) end_text h k =
    Free-append (λ c. c == 0x1b) (codes label) _ (literal-NoEscape (codes label) h.0)
      (Free-append (λ c. c == 0x1b) (format_ℕ n) _ (number-NoEscape n)
        (counts-NoEscape counts end_text h.1 k))

tally-NoEscape : (s : Summary) → NoEscape (tally_line s)
unfolding tally_line
tally-NoEscape s =
    counts-NoEscape (counts_of s) (codes ")\n")
      (refl, (refl, (refl, (refl, (refl, (refl, (refl, (refl, tt))))))))
      (literal-NoEscape (codes ")\n") refl)

strips_footer : (s : Summary) → StripsTo (footer true s) (footer false s)
unfolding footer
strips_footer s =
    strips_literal_of (codes "validator result: ") _ _
      (literal-NoEscape (codes "validator result: ") refl)
      (strips_colored (verdict_color (passes s) true) (verdict (passes s)) _ _
        (strips_verdict_color (passes s)) (verdict_color_nonempty (passes s))
        (strips_verdict (passes s))
        (strips_literal_of (codes "\n") (tally_line s) (tally_line s) (refl, tt)
          (strips_plain (tally_line s) (tally-NoEscape s))))

-- Without its escape sequences the report in color is the report without color, provided no id,
-- severity or detail holds an ESC.
pub strip_colors-human_text :
    (quote : Text → Text) (rep : Report)
    → All (IsPlain quote) rep.results
    → strip_colors (human_text quote true rep) ≡ human_text quote false rep
unfolding human_text strip_from
strip_colors-human_text quote rep h =
    ap strip_colors (sym (append-nil (human_text quote true rep)))
    ∙ strips-append (result_lines quote true rep.results) (footer true rep.summary) _ _
        (strips_lines quote rep.results h) (strips_footer rep.summary) []
    ∙ append-nil (human_text quote false rep)
