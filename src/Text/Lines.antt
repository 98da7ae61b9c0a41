-- ===== src/Text/Lines.antt =====
-- A file of lines, each with its newline, and what the scanner makes of it.
use copyfail_validation.Base.{List, [], ◌∷◌, ◌++◌, ◌≡◌, refl, ap, arith, All, none, ◌<◌, ◌==◌, ◌∙◌}
use copyfail_validation.Text.{Text, split}
use copyfail_validation.Text.Laws.{Free, split-sep, split-Free}
use copyfail_validation.Text.Scan.{drop_final, drop_cr, byte_size, max_token, scan_lines, scan}

unfoldable pub unlines : List Text → Text
unlines [] = []
unlines (l ∷ ls) = l ++ (b'\n' ∷ unlines ls)

-- A line that the scanner hands over whole.
pub record IsLine (l : Text) : Type 0 where
  pub no_newline : Free (λ c. c == b'\n') l
  pub no_return : Free (λ c. c == b'\r') l
  pub short : byte_size l < max_token

split-unlines :
    (ls : List Text) → All IsLine ls → split (λ c. c == b'\n') (unlines ls) ≡ ls ++ [] ∷ []
unfolding unlines
split-unlines [] h = split-Free (λ c. c == b'\n') [] tt
split-unlines (l ∷ ls) h =
    split-sep (λ c. c == b'\n') l b'\n' (unlines ls) h.0.no_newline refl
    ∙ ap (◌∷◌ l) (split-unlines ls h.1)

drop_final-append : (ls : List Text) → drop_final (ls ++ [] ∷ []) ≡ ls
unfolding drop_final
drop_final-append [] = refl
drop_final-append (l ∷ []) = refl
drop_final-append (l ∷ m ∷ ls) = ap (◌∷◌ l) (drop_final-append (m ∷ ls))

drop_cr-Free : (l : Text) → Free (λ c. c == b'\r') l → drop_cr l ≡ l
unfolding drop_cr
drop_cr-Free [] h = refl
drop_cr-Free (c ∷ []) h = rw h.0
drop_cr-Free (c ∷ d ∷ s) h = ap (◌∷◌ c) (drop_cr-Free (d ∷ s) h.1)

module _ {ℓ} {E : Type ℓ} where
  scan_lines-IsLine :
      (ls : List Text)
      → All IsLine ls
      → scan_lines {E = E} none ls ≡ record { lines = ls; stop = none }
  unfolding scan_lines
  scan_lines-IsLine [] h = refl
  scan_lines-IsLine (l ∷ ls) h =
      ground (arith, drop_cr-Free l h.0.no_return, scan_lines-IsLine ls h.1, h.0.short)

  -- The scanner finds the lines that were written.
  pub scan-unlines :
      (ls : List Text)
      → All IsLine ls
      → scan {E = E} (record { content = unlines ls; failure = none })
        ≡ record { lines = ls; stop = none }
  unfolding scan
  scan-unlines ls h =
      ap (λ m. scan_lines {E = E} none (drop_final m)) (split-unlines ls h)
      ∙ ap (scan_lines {E = E} none) (drop_final-append ls)
      ∙ scan_lines-IsLine ls h
