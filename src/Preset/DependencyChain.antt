-- ===== src/Preset/DependencyChain.antt =====
-- preset/copyfail/modprobe_dependency_chain.go: no later file overrides the blocklist.
use copyfail_validation.Base.{
  List, [], ◌∷◌, ◌++◌, true, not, ◌||◌, Option, none, some, if◌then◌else◌, ◌≡◌, ◌≢◌, ◌↔◌, ◌⊎◌, inl,
  inr, refl, arith, Option-cases, Bool-cases, length, All,
}
use copyfail_validation.Text.{Text, codes, equal, join, has_suffix}
use copyfail_validation.Text.Laws.{equal_iff}
use copyfail_validation.Errors.{
  ok, err, Error, Message, Outcome, not_exist, is, str, quoted, num, lit,
}
use copyfail_validation.Report.{pass, fail, Time, scalar, count, Result}
use copyfail_validation.Exec.Safety.{Fails}
use copyfail_validation.Kernelmod.Conf.{ConfDirective, install_loop, install_target}
use copyfail_validation.Kernelmod.Conf.Queries.{LastInstall, install_target-LastInstall}
use copyfail_validation.Kernelmod.ConfDir.{
  Files, Entry, symlink, visit, parse_target, parse_conf_dir,
}
use copyfail_validation.Kernelmod.ConfDir.Whole.{parse_conf_dir-IsWhole}
use copyfail_validation.Preset.{
  required_install_target, opening, entry, noting, passes, fails, errs,
}

abbrev pub id : Text
id = codes "modprobe.dependency_chain"

abbrev pub title : Text
title = codes "No later-sorting modprobe.d file overrides the blocklist"

abbrev pub description : Text
description =
    codes "Scans every *.conf file in the modprobe.d directory in alphabetical order "
    ++ codes "and verifies the LAST install directive for the configured module resolves to "
    ++ codes "/bin/false. modprobe applies later-sorting files on top of earlier ones, so a "
    ++ codes "single override directive in 99-experimental.conf silently defeats the baseline "
    ++ codes "blocklist. This check is the defense-in-depth complement to modprobe.conf_correct."

-- A directive's target, and `<path>:<line>`.
abbrev pub Found : Type 0
Found = Text × Message

-- The accumulating loop: `some` is `found`, with the target and the source.
unfoldable pub last_loop : Option Found → List ConfDirective → Text → Option Found
unfolding equal
last_loop o [] m = o
last_loop o (d ∷ ds) m =
    let kept = last_loop o ds m in
    let replaced =
      last_loop (some (join (codes " ") d.args, str d.source ∷ lit ":" ++ num d.line_num ∷ [])) ds
        m in
    if not (equal d.kind (codes "install")) || not (equal d.module_name m) then kept else replaced

unfoldable pub last_install_directive : List ConfDirective → Text → Option Found
unfolding last_loop
last_install_directive ds m = last_loop none ds m

unfoldable pub on_last : Result → Text → Text → Option Found → Result
unfolding equal
on_last res dir m none =
    fails
      (noting res
        (entry (codes "last_install_target") [] ∷ entry (codes "last_install_source") [] ∷ []))
      (lit "no install directive for " ++ quoted m ∷ lit " in any file under " ++ str dir ∷ [])
on_last res dir m (some (target, source)) =
    let noted = noting res (
      entry (codes "last_install_target") (str target ∷ [])
      ∷ entry (codes "last_install_source") source
      ∷ []) in
    if not (equal target required_install_target)
    then fails
        (noting noted (
          entry (codes "override_source") source
          ∷ entry (codes "override_target") (str target ∷ [])
          ∷ []))
        (lit "blocklist overridden by later directive in "
          ++ source
          ++ lit " (resolves to "
          ++ quoted target ∷ lit ", want "
          ++ quoted required_install_target ∷ lit ")")
    else passes noted (
        lit "last install directive for "
        ++ quoted m ∷ lit " in "
        ++ source
        ++ lit " resolves to "
        ++ str required_install_target ∷ [])

unfoldable pub on_scanned : Result → Text → Text → Outcome (List ConfDirective) → Result
unfolding on_last last_install_directive is
on_scanned res dir m o =
    let counted = noting res ((codes "directive_count", scalar (count (length o.value))) ∷ []) in
    elim o.err [
      | some e ↦
          if is e not_exist
          then fails counted (str dir ∷ lit " directory missing")
          else errs counted (lit "scan " ++ str dir ∷ lit ": " ++ e.message)
              (lit "copyfail: scan " ++ str dir ∷ lit ": " ++ e.message)
      | none ↦ on_last counted dir m (last_install_directive o.value m)
    ]

abbrev pub opened : Time → Text → Text → Result
opened now dir m =
    opening id title now
      (entry (codes "dir") (str dir ∷ []) ∷ entry (codes "module") (str m ∷ []) ∷ [])

unfoldable pub run_check : Files → Time → Text → Text → Result
unfolding on_scanned
run_check fs now dir m = on_scanned (opened now dir m) dir m (parse_conf_dir fs dir)

abbrev pub target_of : Option Found → Option Text
target_of none = none
target_of (some (target, source)) = some target

last_loop-target :
    (o : Option Found) (ds : List ConfDirective) (m : Text)
    → target_of (last_loop o ds m) ≡ install_loop (target_of o) ds m
unfolding last_loop install_loop
last_loop-target o [] m = refl
last_loop-target o (d ∷ ds) m =
    elim (Bool-cases (not (equal d.kind (codes "install")) || not (equal d.module_name m))) [
      | inl s ↦ rw s (last_loop-target o ds m)
      | inr t ↦ rw t (
          last_loop-target
            (some (join (codes " ") d.args, str d.source ∷ lit ":" ++ num d.line_num ∷ [])) ds m)
    ]

-- lastInstallDirective and kernelmod.InstallTarget agree: one finds a directive exactly if the other
-- does, and then with the same target.
pub last_install_directive-install_target :
    (ds : List ConfDirective) (m : Text)
    → target_of (last_install_directive ds m) ≡ install_target ds m
unfolding last_install_directive install_target
last_install_directive-install_target ds m = last_loop-target none ds m

on_last-states :
    (res : Result) (dir m : Text) (f : Option Found)
    → ((on_last res dir m f).state ≡ pass ↔ target_of f ≡ some required_install_target)
      × ((on_last res dir m f).state ≡ fail ↔ target_of f ≢ some required_install_target)
unfolding on_last
on_last-states res dir m none = (ground arith, ground arith)
on_last-states res dir m (some (t, s)) = (
  ground (arith, equal_iff t required_install_target),
  ground (arith, equal_iff t required_install_target),
)

on_scanned-states :
    (res : Result) (dir m : Text) (o : Outcome (List ConfDirective))
    → ((on_scanned res dir m o).state ≡ pass
        ↔ (o.err ≡ none) × (install_target o.value m ≡ some required_install_target))
      × ((on_scanned res dir m o).state ≡ fail
          ↔ ((o.err ≡ none) × (install_target o.value m ≢ some required_install_target))
            ⊎ Fails not_exist o.err)
unfolding on_scanned
on_scanned-states res dir m o = elim (Option-cases o.err) [
  | inl q ↦ rw q (
      ground (
        arith,
        last_install_directive-install_target o.value m,
        on_last-states
            (noting res ((codes "directive_count", scalar (count (length o.value))) ∷ [])) dir m
            (last_install_directive o.value m),
      ))
  | inr (e, q) ↦ rw q (ground arith)
]

-- The check passes exactly if the directory is scanned without an error and the last install directive
-- for the module, over all files in the order of their names, runs /bin/false. It fails exactly if the
-- scan has no error and that directive is another one or missing, or if the error of the scan is one
-- of a file that does not exist.
pub run_check-LastInstall :
    (fs : Files) (now : Time) (dir m : Text)
    → ((run_check fs now dir m).state ≡ pass
        ↔ ((parse_conf_dir fs dir).err ≡ none)
          × LastInstall m (parse_conf_dir fs dir).value (some required_install_target))
      × ((run_check fs now dir m).state ≡ fail
          ↔ (((parse_conf_dir fs dir).err ≡ none)
              × (¬ LastInstall m (parse_conf_dir fs dir).value (some required_install_target)))
            ⊎ Fails not_exist (parse_conf_dir fs dir).err)
unfolding run_check
run_check-LastInstall fs now dir m =
    let o = parse_conf_dir fs dir in
    let states = on_scanned-states (opened now dir m) dir m o in
    let found = install_target-LastInstall m o.value (some required_install_target) in
    (
      (λ h. ((states.0.0 h).0, found.0 (states.0.0 h).1), λ (n, l). states.0.1 (n, found.1 l)),
      (
        λ h. elim (states.1.0 h) [ inl (n, u) ↦ inl (n, λ l. u (found.1 l)) | inr f ↦ inr f ],
        λ d. elim d [
          | inl (n, u) ↦ states.1.1 (inl (n, λ e. u (found.0 e)))
          | inr f ↦ states.1.1 (inr f)
        ],
      ),
    )

All-at : {A : Type 0} (P : A → Type 0) (f : List A) (a : A) (g : List A) → All P (f ++ a ∷ g) → P a
All-at P [] a g (p, h) = p
All-at P (x ∷ f) a g (p, h) = All-at P f a g h

on_scanned-missing :
    (res : Result) (dir m : Text) (o : Outcome (List ConfDirective))
    → Fails not_exist o.err
    → ((on_scanned res dir m o).state ≡ fail)
      × ((on_scanned res dir m o).detail ≡ str dir ∷ lit " directory missing")
unfolding on_scanned is
on_scanned-missing res dir m o f = elim (Option-cases o.err) [
  | inl q ↦ absurd (rw q at f)
  | inr (e, q) ↦ rw q (ground (arith, rw q at f))
]

link-Fails :
    (fs : Files) (dir : Text) (e : Entry) (x : Error)
    → has_suffix e.name (codes ".conf") ≡ true
    → e.info ≡ ok symlink
    → fs.stat (fs.path_join dir e.name) ≡ err x
    → is x not_exist ≡ true
    → Fails not_exist (visit fs dir e).err
unfolding visit parse_target is
link-Fails fs dir e x c l h n = rw (c, l, h, visit, parse_target) n

-- A symbolic link whose name ends in `.conf` and whose target does not exist, in a directory that can
-- be read, makes the check fail with the detail that the directory is missing.
pub run_check-dangling_link :
    (fs : Files) (now : Time) (dir m : Text) (f : List Entry) (e : Entry) (g : List Entry)
    (x : Error)
    → fs.read_dir dir ≡ ok (f ++ e ∷ g)
    → has_suffix e.name (codes ".conf") ≡ true
    → e.info ≡ ok symlink
    → fs.stat (fs.path_join dir e.name) ≡ err x
    → is x not_exist ≡ true
    → ((run_check fs now dir m).state ≡ fail)
      × ((run_check fs now dir m).detail ≡ str dir ∷ lit " directory missing")
unfolding run_check
run_check-dangling_link fs now dir m f e g x r c l h n =
    let o = parse_conf_dir fs dir in
    let whole = parse_conf_dir-IsWhole fs dir (f ++ e ∷ g) r in
    let sent =
      All-at (λ k. Fails not_exist (visit fs dir k).err → Fails not_exist o.err) f e g
        (whole.fails not_exist) in
    on_scanned-missing (opened now dir m) dir m o (sent (link-Fails fs dir e x c l h n))
