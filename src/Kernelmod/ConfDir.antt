-- ===== src/Kernelmod/ConfDir.antt =====
-- ParseConfFile and ParseConfDir of internal/kernelmod/conf.go. The file system is a parameter.
pub mod Whole
use copyfail_validation.Base.{
  ℕ, List, [], ◌∷◌, ◌++◌, Bool, true, not, Option, none, some, if◌then◌else◌,
}
use copyfail_validation.Base.Sort.{sort_by}
use copyfail_validation.Text.{Text, codes, has_suffix}
use copyfail_validation.Text.Order.{less}
use copyfail_validation.Text.Scan.{Reader}
use copyfail_validation.Errors.{Error, Outcome, Try, ok, err, wrap, join_errors, str, lit}
use copyfail_validation.Kernelmod.Conf.{ConfDirective, parse_conf_reader}

-- What a file mode says: a symbolic link, a regular file, or neither.
pub data Mode : Type 0 where
  symlink regular irregular : Mode

-- The answers of fs.FileInfo that the program reads; a file's size is not negative.
pub record FileInfo : Type 0 where
  pub mode : Mode
  pub mode_text : Text
  pub size : ℕ

-- An entry of a directory, with the answer of Info.
pub record Entry : Type 0 where
  pub name : Text
  pub info : Try Mode

-- filepath.EvalSymlinks, filepath.Abs, os.Open, os.ReadDir, os.Stat and filepath.Join.
pub record Files : Type 0 where
  pub eval_symlinks : Text → Try Text
  pub abs : Text → Try Text
  pub open_file : Text → Try (Reader Error)
  pub read_dir : Text → Try (List Entry)
  pub stat : Text → Try FileInfo
  pub path_join : Text → Text → Text

-- The value, or the one that stands in for it.
abbrev or_else : Text → Try Text → Text
or_else path (ok p) = p
or_else path (err e) = path

unfoldable pub resolve : Files → Text → Text
resolve fs path =
    let followed = or_else path (fs.eval_symlinks path) in or_else followed (fs.abs followed)

abbrev failed : Error → Outcome (List ConfDirective)
failed e = record { value = []; err = some e }

unfoldable pub parse_conf_file : Files → Text → Outcome (List ConfDirective)
unfolding resolve
parse_conf_file fs path = elim (fs.open_file (resolve fs path)) [
  | err e ↦ failed (wrap (lit "kernelmod: open " ++ str path ∷ lit ": ") e)
  | ok r ↦ parse_conf_reader r (resolve fs path)
]

-- The file that an entry is skipped for, without a word.
abbrev nothing : Outcome (List ConfDirective)
nothing = record { value = []; err = none }

unfoldable pub parse_regular : Files → Text → Mode → Outcome (List ConfDirective)
parse_regular fs path regular = parse_conf_file fs path
parse_regular fs path _ = nothing

-- Where the entry is a link, the mode of its target counts.
unfoldable pub parse_target : Files → Text → Try Mode → Outcome (List ConfDirective)
unfolding parse_regular
parse_target fs path (err e) = failed (wrap (lit "kernelmod: stat " ++ str path ∷ lit ": ") e)
parse_target fs path (ok symlink) = elim (fs.stat path) [
  | err e ↦ failed (wrap (lit "kernelmod: stat symlink target " ++ str path ∷ lit ": ") e)
  | ok i ↦ parse_regular fs path i.mode
]
parse_target fs path (ok m) = parse_regular fs path m

-- The body of the loop: the directives and the error that one entry adds.
unfoldable pub visit : Files → Text → Entry → Outcome (List ConfDirective)
unfolding parse_target
visit fs dir e =
    if not (has_suffix e.name (codes ".conf"))
    then nothing
    else parse_target fs (fs.path_join dir e.name) e.info

abbrev append_error : List Error → Option Error → List Error
append_error errs none = errs
append_error errs (some e) = errs ++ e ∷ []

-- The loop, on the directives and the errors so far, and the join of the errors behind it.
unfoldable pub scan_entries :
    Files → Text → List ConfDirective → List Error → List Entry → Outcome (List ConfDirective)
unfolding visit join_errors
scan_entries fs dir ds errs [] = record { value = ds; err = join_errors errs }
scan_entries fs dir ds errs (e ∷ es) =
    let o = visit fs dir e in scan_entries fs dir (ds ++ o.value) (append_error errs o.err) es

-- sort.Slice by name. The names of one directory differ, so there is one sorted list.
abbrev pub by_name : Entry → Entry → Bool
by_name a b = less a.name b.name

unfoldable pub sort : List Entry → List Entry
unfolding sort_by less
sort es = sort_by by_name es

unfoldable pub parse_conf_dir : Files → Text → Outcome (List ConfDirective)
unfolding scan_entries sort
parse_conf_dir fs dir = elim (fs.read_dir dir) [
  | err e ↦ failed (wrap (lit "kernelmod: read dir " ++ str dir ∷ lit ": ") e)
  | ok entries ↦ scan_entries fs dir [] [] (sort entries)
]
