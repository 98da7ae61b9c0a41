-- ===== src/Kernelmod/ConfDir/Whole.antt =====
-- What ParseConfDir of internal/kernelmod/conf.go makes of a whole directory.
use copyfail_validation.Base.{
  List, [], ◌∷◌, ◌++◌, Bool, true, false, ◌||◌, ◌⊎◌, Option, none, some, ◌≡◌, ◌↔◌, refl, ◌∙◌, All,
  Option-cases, inl, inr, arith,
}
use mathlib.Core.List.{Perm}
use mathlib.Core.List.{append_assoc, append-nil}
use copyfail_validation.Text.{Text}
use copyfail_validation.Errors.{Error, Outcome, ok, Sentinel, is, mentions, join_errors}
use copyfail_validation.Exec.Safety.{Fails}
use copyfail_validation.Kernelmod.Conf.{ConfDirective}
use copyfail_validation.Kernelmod.ConfDir.{
  Entry, Files, visit, scan_entries, append_error, sort, by_name, parse_conf_dir,
}
use copyfail_validation.Base.Sort.{IsSorted, sort_by-IsSorted, sort_by-perm, sort_by-All}
use copyfail_validation.Text.Order.{less_asymm}

-- What the entries yield, one after the other.
abbrev pub directives : Files → Text → List Entry → List ConfDirective
directives fs dir [] = []
directives fs dir (e ∷ es) = (visit fs dir e).value ++ directives fs dir es

scan_entries-value :
    (fs : Files) (dir : Text) (ds : List ConfDirective) (errs : List Error) (es : List Entry)
    → (scan_entries fs dir ds errs es).value ≡ ds ++ directives fs dir es
unfolding scan_entries
scan_entries-value fs dir ds errs [] = rw (append-nil ds) refl
scan_entries-value fs dir ds errs (e ∷ es) =
    scan_entries-value fs dir (ds ++ (visit fs dir e).value)
      (append_error errs (visit fs dir e).err) es
    ∙ append_assoc ds (visit fs dir e).value (directives fs dir es)

join_errors-none : (errs : List Error) → join_errors errs ≡ none → errs ≡ []
unfolding join_errors
join_errors-none [] h = refl
join_errors-none (e ∷ es) h = elim (Option-cases (join_errors es)) [
  | inl q ↦ absurd (cc (q, h))
  | inr (r, q) ↦ absurd (cc (q, h))
]

append_error-nil :
    (errs : List Error) (o : Option Error) → append_error errs o ≡ [] → (errs ≡ []) × (o ≡ none)
append_error-nil errs none h = (h, refl)
append_error-nil [] (some e) h = absurd (cc)
append_error-nil (x ∷ errs) (some e) h = absurd (cc)

scan_entries-none :
    (fs : Files) (dir : Text) (ds : List ConfDirective) (errs : List Error) (es : List Entry)
    → (scan_entries fs dir ds errs es).err ≡ none
    → (errs ≡ []) × All (λ e. (visit fs dir e).err ≡ none) es
unfolding scan_entries
scan_entries-none fs dir ds errs [] h = (join_errors-none errs h, tt)
scan_entries-none fs dir ds errs (e ∷ es) h =
    let (n, a) =
      scan_entries-none fs dir (ds ++ (visit fs dir e).value)
        (append_error errs (visit fs dir e).err) es h in
    let (m, v) = append_error-nil errs (visit fs dir e).err n in (m, (v, a))

none-scan_entries :
    (fs : Files) (dir : Text) (ds : List ConfDirective) (es : List Entry)
    → All (λ e. (visit fs dir e).err ≡ none) es
    → (scan_entries fs dir ds [] es).err ≡ none
unfolding scan_entries
none-scan_entries fs dir ds [] a = refl
none-scan_entries fs dir ds (e ∷ es) (h, a) =
    rw (h, scan_entries) (none-scan_entries fs dir (ds ++ (visit fs dir e).value) es a)

-- Some error of the list has the sentinel in its chain.
mentioned : Sentinel → List Error → Bool
mentioned s [] = false
mentioned s (e ∷ es) = is e s || mentioned s es

mentions-append :
    (s : Sentinel) (xs ys : List Sentinel)
    → mentions s (xs ++ ys) ≡ (mentions s xs || mentions s ys)
unfolding mentions
mentions-append s [] ys = refl
mentions-append s (x ∷ xs) ys = ground (arith, mentions-append s xs ys)

join_errors-Fails :
    (s : Sentinel) (errs : List Error) → mentioned s errs ≡ true → Fails s (join_errors errs)
unfolding join_errors is mentioned
join_errors-Fails s [] h = absurd (cc)
join_errors-Fails s (e ∷ es) h = elim (Option-cases (join_errors es)) [
  | inl q ↦ rw (q, join_errors) (ground (arith, join_errors-none es q))
  | inr (r, q) ↦
      rw (q, join_errors)
        (ground (arith, q, mentions-append s e.chain r.chain, join_errors-Fails s es))
]

mentioned-append_error :
    (s : Sentinel) (errs : List Error) (o : Option Error)
    → (mentioned s errs ≡ true) ⊎ Fails s o
    → mentioned s (append_error errs o) ≡ true
unfolding mentioned
mentioned-append_error s errs none (inl h) = h
mentioned-append_error s errs none (inr h) = absurd h
mentioned-append_error s [] (some e) h = ground arith
mentioned-append_error s (x ∷ errs) (some e) h =
    ground (arith, mentioned-append_error s errs (some e))

scan_entries-Fails :
    (fs : Files) (dir : Text) (ds : List ConfDirective) (errs : List Error) (es : List Entry)
    (s : Sentinel)
    → mentioned s errs ≡ true
    → Fails s (scan_entries fs dir ds errs es).err
unfolding scan_entries
scan_entries-Fails fs dir ds errs [] s h = join_errors-Fails s errs h
scan_entries-Fails fs dir ds errs (e ∷ es) s h =
    scan_entries-Fails fs dir (ds ++ (visit fs dir e).value)
      (append_error errs (visit fs dir e).err) es s
      (mentioned-append_error s errs (visit fs dir e).err (inl h))

scan_entries-visit :
    (fs : Files) (dir : Text) (ds : List ConfDirective) (errs : List Error) (es : List Entry)
    (s : Sentinel)
    → All (λ e. Fails s (visit fs dir e).err → Fails s (scan_entries fs dir ds errs es).err) es
unfolding scan_entries
scan_entries-visit fs dir ds errs [] s = tt
scan_entries-visit fs dir ds errs (e ∷ es) s = (
  λ f.
      scan_entries-Fails fs dir (ds ++ (visit fs dir e).value)
        (append_error errs (visit fs dir e).err) es s
        (mentioned-append_error s errs (visit fs dir e).err (inr f)),
  scan_entries-visit fs dir (ds ++ (visit fs dir e).value) (append_error errs (visit fs dir e).err)
      es s,
)

-- The outcome for a directory with these entries: they are visited in the order of their names, the
-- directives are those of the entries in that order, there is no error exactly if no entry has one,
-- and what an entry's error is, the whole error is.
pub record IsWhole (fs : Files) (dir : Text) (entries : List Entry)
    (o : Outcome (List ConfDirective)) : Type 0 where
  pub order : List Entry
  pub permutes : Perm order entries
  pub sorted : IsSorted by_name order
  pub value : o.value ≡ directives fs dir order
  pub succeeds : (o.err ≡ none) ↔ All (λ e. (visit fs dir e).err ≡ none) entries
  pub fails : (s : Sentinel) → All (λ e. Fails s (visit fs dir e).err → Fails s o.err) entries

-- Where the directory can be read, ParseConfDir visits every entry, in the order of the names, and
-- yields all their directives in that order, also those of files that end in an error. It reports an
-- error exactly if an entry has one, and every sentinel of an entry's error is found in its own.
pub parse_conf_dir-IsWhole :
    (fs : Files) (dir : Text) (entries : List Entry)
    → fs.read_dir dir ≡ ok entries
    → IsWhole fs dir entries (parse_conf_dir fs dir)
unfolding parse_conf_dir
parse_conf_dir-IsWhole fs dir entries h =
    rw (h, parse_conf_dir)
      (record {
        order = sort entries;
        permutes = sort_by-perm by_name entries;
        sorted = sort_by-IsSorted by_name (λ a b. less_asymm a.name b.name) entries;
        value = scan_entries-value fs dir [] [] (sort entries);
        succeeds = (
          λ n.
              (sort_by-All by_name (λ e. (visit fs dir e).err ≡ none) entries).0
                (scan_entries-none fs dir [] [] (sort entries) n).1,
          λ a.
              none-scan_entries fs dir [] (sort entries)
                ((sort_by-All by_name (λ e. (visit fs dir e).err ≡ none) entries).1 a),
        );
        fails = λ s.
            (sort_by-All by_name
                (λ e.
                  Fails s (visit fs dir e).err
                  → Fails s (scan_entries fs dir [] [] (sort entries)).err)
                entries).0
              (scan_entries-visit fs dir [] [] (sort entries) s);
      })
