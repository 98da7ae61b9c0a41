-- ===== src/Kernelmod/Conf/Print.antt =====
-- Directives written one to a line, as a modprobe.d file holds them, and read back.
use mathlib.Core.List.{append_assoc, append-nil}
use copyfail_validation.Base.{
  ℕ, ◌+◌, ◌<◌, List, [], ◌∷◌, ◌++◌, Bool, false, none, ◌≡◌, refl, ap, arith, All, map, ◌==◌,
  is_empty, ◌∙◌,
}
use copyfail_validation.Text.{
  Text, codes, is_space, is_blank, trim_space, trim_right, fields, has_suffix, join,
}
use copyfail_validation.Text.Laws.{Free, IsWord, before-Free, fields-join}
use copyfail_validation.Text.Words.{Free-join, Free-weaken, join_words, trim_space-join}
use copyfail_validation.Text.Scan.{byte_size, max_token}
use copyfail_validation.Text.Lines.{unlines, IsLine, scan-unlines}
use copyfail_validation.Kernelmod.Conf.{
  ConfDirective, ConfState, continue, initial, strip_inline_comment, strip, directive_of,
  parse_conf_directive_line, emit, flush, step, finish, run, parse_conf_reader,
}

abbrev pub words : ConfDirective → List Text
words d = d.kind ∷ d.module_name ∷ d.args

unfoldable pub print : ConfDirective → Text
print d = join (codes " ") (words d)

-- A directive that fits one line: words, no comment in them, no backslash at the end.
pub record IsPrintable (d : ConfDirective) : Type 0 where
  pub of_words : All IsWord (words d)
  pub no_comment : All (Free (λ c. c == b'#')) (words d)
  pub no_continuation : has_suffix (print d) (codes "\\") ≡ false
  pub short : byte_size (print d) < max_token

-- The directive as it is found on line `n` of `source`.
abbrev pub at : Text → ℕ → ConfDirective → ConfDirective
at source n d = record d { source = source; line_num = n }

abbrev pub located : Text → ℕ → List ConfDirective → List ConfDirective
located source n [] = []
located source n (d ∷ ds) = at source n d ∷ located source (n + 1) ds

not_blank : (c : ℕ) → is_space c ≡ false → is_blank c ≡ false
unfolding is_space is_blank
not_blank c h = ground arith

not_newline : (c : ℕ) → is_space c ≡ false → (c == b'\n') ≡ false
unfolding is_space
not_newline c h = ground arith

not_return : (c : ℕ) → is_space c ≡ false → (c == b'\r') ≡ false
unfolding is_space
not_return c h = ground arith

Free-words :
    (q : ℕ → Bool) (ws : List Text)
    → ((c : ℕ) → is_space c ≡ false → q c ≡ false)
    → All IsWord ws
    → All (Free q) ws
Free-words q [] narrow h = tt
Free-words q (w ∷ ws) narrow h =
    (Free-weaken is_space q w narrow h.0.no_space, Free-words q ws narrow h.1)

module _ (d : ConfDirective) (p : IsPrintable d) where
  strip-print : strip (print d) ≡ print d
  unfolding strip strip_inline_comment print
  strip-print =
      ap (trim_right is_blank)
        (before-Free b'#' (print d) (Free-join (λ c. c == b'#') b' ' (words d) refl p.no_comment))
      ∙ (join_words is_blank d.kind (d.module_name ∷ d.args) not_blank p.of_words).0

  print_not_blank : is_empty (trim_space (print d)) ≡ false
  unfolding print
  print_not_blank = trim_space-join d.kind (d.module_name ∷ d.args) p.of_words.0

  print-IsLine : IsLine (print d)
  unfolding print
  print-IsLine = record {
    no_newline = Free-join _ b' ' (words d) refl (Free-words _ (words d) not_newline p.of_words);
    no_return = Free-join _ b' ' (words d) refl (Free-words _ (words d) not_return p.of_words);
    short = p.short;
  }

  fields-print : fields (print d) ≡ words d
  unfolding print
  fields-print = fields-join d.kind (d.module_name ∷ d.args) p.of_words

  parse-print :
      (source : Text) (s : ConfState) (n : ℕ)
      → emit source s (print d) n
        ≡ continue (record s { directives = s.directives ++ at source n d ∷ [] })
  unfolding emit parse_conf_directive_line directive_of
  parse-print source s n = rw (fields-print, emit, parse_conf_directive_line)

  step-print :
      (source : Text) (s : ConfState)
      → s.pending ≡ []
      → step source s (print d)
        ≡ continue (record s {
          line_num = s.line_num + 1;
          directives = s.directives ++ at source (s.line_num + 1) d ∷ [];
        })
  unfolding step flush
  step-print source s e = ground (
    arith,
    strip-print,
    print_not_blank,
    p.no_continuation,
    parse-print source (record s { line_num = s.line_num + 1 }) (s.line_num + 1),
  )

run-print :
    (source : Text) (s : ConfState) (ds : List ConfDirective)
    → s.pending ≡ []
    → All IsPrintable ds
    → run source s (map print ds) none
      ≡ record { value = s.directives ++ located source (s.line_num + 1) ds; err = none }
unfolding run finish
run-print source s [] e h = rw append-nil (ground arith)
run-print source s (d ∷ ds) e h =
    rw (step-print d h.0 source s e, run)
      (run-print source
          (record s {
            line_num = s.line_num + 1;
            directives = s.directives ++ at source (s.line_num + 1) d ∷ [];
          })
          ds e h.1
        ∙ rw append_assoc)

lines-print : (ds : List ConfDirective) → All IsPrintable ds → All IsLine (map print ds)
lines-print [] h = tt
lines-print (d ∷ ds) h = (print-IsLine d h.0, lines-print ds h.1)

-- Directives written one to a line are read back, each with its source and its line number, and
-- with no error. They are to consist of words without white space or `#`, on lines that are
-- shorter than the scanner's limit and do not end in a backslash.
pub parse_conf_reader-unlines :
    (source : Text) (ds : List ConfDirective)
    → All IsPrintable ds
    → parse_conf_reader (record { content = unlines (map print ds); failure = none }) source
      ≡ record { value = located source 1 ds; err = none }
unfolding parse_conf_reader
parse_conf_reader-unlines source ds h =
    rw (scan-unlines (map print ds) (lines-print ds h)) (run-print source initial ds refl h)
