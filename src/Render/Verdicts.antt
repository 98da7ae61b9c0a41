-- ===== src/Render/Verdicts.antt =====
-- The verdicts of internal/render/human.go and sarif.go, and computeExit of cmd/copyfail-validate/exit.go.
use mathlib.Core.List.{append_assoc}
use copyfail_validation.Base.{
  ℕ, String, List, [], ◌∷◌, ◌++◌, Bool, true, false, ◌==◌, ◌≡◌, ◌↔◌, ◌∙◌, refl, ap, sym, arith, All,
  Bool-cases, inl, inr,
}
use copyfail_validation.Text.{Text, codes, equal, split, pieces}
use copyfail_validation.Text.Laws.{equal_iff, split-sep, split-Free}
use copyfail_validation.Text.Words.{Free-append, is_free, is_free-Free}
use copyfail_validation.Text.Decimal.{format_ℕ}
use copyfail_validation.Report.{severity_text, Result, Summary, Report}
use copyfail_validation.Render.Document.Line.{IsOneLine, format_ℕ-IsOneLine}
use copyfail_validation.Render.Human.{
  passes, verdict_color, status_label, with_detail, detail_text, verdict, write_counts, counts_of,
  tally_line, footer, result_line, result_lines, human_text,
}
use copyfail_validation.Render.Sarif.{build_sarif_invocation, execution_successful}
use copyfail_validation.Cli.Exit.{compute_exit, exit_ok}

abbrev newline : ℕ → Bool
newline c = c == b'\n'

-- The third text from the end of a list, with the three texts before it.
abbrev third_last : Text → Text → Text → List Text → Text
third_last p q r [] = p
third_last p q r (l ∷ ls) = third_last q r l ls

-- The line before the last line of a text whose lines all end in a line break.
abbrev pub line_before_last : Text → Text
line_before_last s = third_last [] [] [] (split newline s)

third_last-append :
    (ls : List Text) (p q r a b c : Text) → third_last p q r (ls ++ a ∷ b ∷ c ∷ []) ≡ a
third_last-append [] p q r a b c = refl
third_last-append (l ∷ ls) p q r a b c = third_last-append ls q r l a b c

-- A line break ends a piece, whatever is before it.
pieces-append_line :
    (s rest : Text)
    → pieces newline (s ++ b'\n' ∷ rest)
      ≡ ((pieces newline s).0, (pieces newline s).1 ++ split newline rest)
unfolding pieces split
pieces-append_line [] rest = refl
pieces-append_line (c ∷ s) rest =
    rw (pieces-append_line s rest)
      (elim (Bool-cases (newline c)) [ inl t ↦ rw t refl | inr f ↦ rw f refl ])

split-append_line :
    (s rest : Text) → split newline (s ++ b'\n' ∷ rest) ≡ split newline s ++ split newline rest
unfolding split
split-append_line s rest = rw (pieces-append_line s rest) refl

-- The last line of the text ends, if there is one.
IsEnded : Text → Type 0
IsEnded s = (x : Text) × (s ≡ x ++ b'\n' ∷ [])

IsEnded-append : (s t : Text) → IsEnded t → IsEnded (s ++ t)
unfolding IsEnded
IsEnded-append s t (x, h) = (s ++ x, ap (◌++◌ s) h ∙ sym (append_assoc s x (b'\n' ∷ [])))

last_break : IsEnded (b'\n' ∷ [])
unfolding IsEnded
last_break = ([], refl)

split-IsEnded :
    (s t : Text) → IsEnded s → (ls : List Text) × (split newline (s ++ t) ≡ ls ++ split newline t)
unfolding IsEnded
split-IsEnded s t (x, h) =
    let moved = ap (λ y. y ++ t) h ∙ append_assoc x (b'\n' ∷ []) t in
    (split newline x, ap (split newline) moved ∙ split-append_line x t)

result_line-IsEnded : (quote : Text → Text) (r : Result) → IsEnded (result_line quote false r)
unfolding result_line
result_line-IsEnded quote r = IsEnded-append (status_label r.state) _ (
    IsEnded-append (codes "  ") _ (
      IsEnded-append r.check_id _ (
        IsEnded-append (codes " (") _ (
          IsEnded-append (severity_text r.severity) _ (
            IsEnded-append (codes ")") _
              (IsEnded-append (with_detail (detail_text quote r)) (b'\n' ∷ []) last_break))))))

-- The lines of the results are pieces of their own before any text.
split-result_lines :
    (quote : Text → Text) (rs : List Result) (rest : Text)
    → (ls : List Text) × (split newline (result_lines quote false rs ++ rest)
        ≡ ls ++ split newline rest)
unfolding result_lines
split-result_lines quote [] rest = ([], refl)
split-result_lines quote (r ∷ rs) rest =
    let more = result_lines quote false rs ++ rest in
    let (ls, h) = split-IsEnded (result_line quote false r) more (result_line-IsEnded quote r) in
    let (ms, k) = split-result_lines quote rs rest in
    (
      ls ++ ms,
      ap (split newline)
            (append_assoc (result_line quote false r) (result_lines quote false rs) rest)
          ∙ h
          ∙ ap (◌++◌ ls) k
          ∙ sym (append_assoc ls ms (split newline rest)),
    )

-- The counts with a literal behind them.
write_counts-append :
    (counts : List (String × ℕ)) (s t : Text)
    → write_counts counts (s ++ t) ≡ write_counts counts s ++ t
unfolding write_counts
write_counts-append [] s t = refl
write_counts-append ((label, n) ∷ counts) s t =
    ap (λ u. codes label ++ (format_ℕ n ++ u)) (write_counts-append counts s t)
    ∙ ap (◌++◌ (codes label)) (sym (append_assoc (format_ℕ n) (write_counts counts s) t))
    ∙ sym (append_assoc (codes label) (format_ℕ n ++ write_counts counts s) t)

write_counts-IsOneLine :
    (counts : List (String × ℕ)) (end_text : Text)
    → All (λ c. is_free newline (codes c.0) ≡ true) counts
    → IsOneLine end_text
    → IsOneLine (write_counts counts end_text)
unfolding write_counts
write_counts-IsOneLine [] end_text h k = k
write_counts-IsOneLine ((label, n) ∷ counts) end_text h k =
    Free-append newline (codes label) _ (is_free-Free newline (codes label) h.0) (
      Free-append newline (format_ℕ n) _ (format_ℕ-IsOneLine n)
        (write_counts-IsOneLine counts end_text h.1 k))

-- The tally is one line that ends.
split-tally_line :
    (s : Summary) → split newline (tally_line s) ≡ write_counts (counts_of s) (codes ")") ∷ [] ∷ []
unfolding tally_line
split-tally_line s =
    ap (split newline) (write_counts-append (counts_of s) (codes ")") (codes "\n"))
    ∙ split-sep newline (write_counts (counts_of s) (codes ")")) b'\n' []
        (write_counts-IsOneLine (counts_of s) (codes ")")
          (refl, (refl, (refl, (refl, (refl, (refl, (refl, (refl, tt)))))))) (refl, tt))
        refl
    ∙ ap (λ ls. write_counts (counts_of s) (codes ")") ∷ ls) (split-Free newline [] tt)

result_words : Bool → Text
result_words b = codes "validator result: " ++ verdict b

split-result_words :
    (b : Bool) (t : Text)
    → split newline (codes "validator result: " ++ (verdict b ++ (codes "\n" ++ t)))
      ≡ result_words b ∷ split newline t
unfolding result_words
split-result_words true t =
    split-sep newline (codes "validator result: PASS") b'\n' t
      (is_free-Free newline (codes "validator result: PASS") refl) refl
split-result_words false t =
    split-sep newline (codes "validator result: FAIL") b'\n' t
      (is_free-Free newline (codes "validator result: FAIL") refl) refl

split-footer :
    (s : Summary)
    → split newline (footer false s)
      ≡ result_words (passes s) ∷ write_counts (counts_of s) (codes ")") ∷ [] ∷ []
unfolding footer verdict_color
split-footer s =
    split-result_words (passes s) (tally_line s)
    ∙ ap (◌∷◌ (result_words (passes s))) (split-tally_line s)

line_before_last-human_text :
    (quote : Text → Text) (rep : Report)
    → line_before_last (human_text quote false rep) ≡ result_words (passes rep.summary)
unfolding human_text
line_before_last-human_text quote rep =
    let (ls, h) = split-result_lines quote rep.results (footer false rep.summary) in
    ap (third_last [] [] []) (h ∙ ap (◌++◌ ls) (split-footer rep.summary))
    ∙ third_last-append ls [] [] [] _ _ _

words-passes : (b : Bool) → result_words b ≡ codes "validator result: PASS" → b ≡ true
unfolding result_words equal
words-passes true h = refl
words-passes false h =
    (equal_iff (codes "validator result: FAIL") (codes "validator result: PASS")).1 h

passes_iff : (rep : Report) → (passes rep.summary ≡ true) ↔ (compute_exit rep ≡ exit_ok)
unfolding passes compute_exit
passes_iff rep = (λ h. ground (arith, h), λ h. ground (arith, h))

successful_iff :
    (rep : Report)
    → ((build_sarif_invocation rep).execution_successful ≡ true) ↔ (compute_exit rep ≡ exit_ok)
unfolding build_sarif_invocation execution_successful compute_exit
successful_iff rep = (λ h. ground (arith, h), λ h. ground (arith, h))

-- The line before the last of the report without color reads "validator result: PASS" exactly if the
-- exit code that computeExit derives from the same report is 0, and exactly then the invocation of the
-- SARIF log is called successful. The line is found by splitting the text at its line breaks.
pub line_before_last-compute_exit :
    (quote : Text → Text) (rep : Report)
    → ((line_before_last (human_text quote false rep) ≡ codes "validator result: PASS")
        ↔ (compute_exit rep ≡ exit_ok))
      × (((build_sarif_invocation rep).execution_successful ≡ true) ↔ (compute_exit rep ≡ exit_ok))
unfolding result_words
line_before_last-compute_exit quote rep =
    let line = line_before_last-human_text quote rep in
    (
      (
        λ h. (passes_iff rep).0 (words-passes (passes rep.summary) (sym line ∙ h)),
        λ h. line ∙ ap result_words ((passes_iff rep).1 h),
      ),
      successful_iff rep,
    )
