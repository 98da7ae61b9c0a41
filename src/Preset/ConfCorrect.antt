-- ===== src/Preset/ConfCorrect.antt =====
-- preset/copyfail/modprobe_conf_correct.go: the blocklist file holds both directives.
use copyfail_validation.Base.{
  List, [], ◌∷◌, ◌++◌, Bool, true, false, Option, none, some, if◌then◌else◌, ◌≡◌, ◌↔◌, ◌⊎◌, inl,
  inr, arith, length, Option-cases, is_empty,
}
use copyfail_validation.Text.{Text, codes, equal}
use copyfail_validation.Text.Laws.{equal_iff}
use copyfail_validation.Errors.{Message, Outcome, not_exist, is, str, quoted, lit}
use copyfail_validation.Report.{pass, fail, Time, scalar, flag, count, Result}
use copyfail_validation.Kernelmod.Conf.{ConfDirective, install_target, is_blacklisted}
use copyfail_validation.Kernelmod.Conf.Queries.{
  Is, Place, LastInstall, install_target-LastInstall, is_blacklisted_iff,
}
use copyfail_validation.Kernelmod.ConfDir.{Files, parse_conf_file}
use copyfail_validation.Exec.Safety.{Fails}
use copyfail_validation.Preset.{
  required_install_target, opening, entry, noting, passes, fails, errs,
}

abbrev pub id : Text
id = codes "modprobe.conf_correct"

abbrev pub title : Text
title = codes "Blocklist contains both install /bin/false and blacklist directives"

abbrev pub description : Text
description =
    codes "Parses the blocklist conf file and verifies it contains both the canonical "
    ++ codes "\"install <module> /bin/false\" directive (so modprobe resolves the module to a "
    ++ codes "no-op) AND the matching \"blacklist <module>\" directive (so the module cannot be "
    ++ codes "loaded via an alias). Both directives are required by the recommended mitigation "
    ++ codes "for CVE-2026-31431; missing either leaves a window for the module to load."

-- The string that InstallTarget returns: empty where there is no directive.
abbrev pub target_text : Option Text → Text
target_text none = []
target_text (some t) = t

unfoldable pub is_required_target : Option Text → Bool
is_required_target none = false
is_required_target (some t) = equal t required_install_target

-- The directives that are missing, as they would be written.
unfoldable pub missing : List ConfDirective → Text → List Message
unfolding is_required_target
missing ds m =
    (if is_required_target (install_target ds m)
      then []
      else (lit "install " ++ str m ∷ lit " " ++ str required_install_target ∷ []) ∷ [])
    ++ (if is_blacklisted ds m then [] else (lit "blacklist " ++ str m ∷ []) ∷ [])

-- strings.Join of messages by ", ".
unfoldable pub join_messages : List Message → Message
join_messages [] = []
join_messages (m ∷ []) = m
join_messages (m ∷ n ∷ ms) = m ++ (lit ", " ++ join_messages (n ∷ ms))

unfoldable pub judge : Result → List ConfDirective → Text → Result
unfolding missing join_messages
judge res ds m =
    let noted = noting res (
      entry (codes "install_target") (str (target_text (install_target ds m)) ∷ [])
      ∷ (codes "blacklisted", scalar (flag (is_blacklisted ds m)))
      ∷ []) in
    if is_empty (missing ds m)
    then passes noted (lit "both required directives present for module " ++ quoted m ∷ [])
    else fails noted (lit "missing required directive(s): " ++ join_messages (missing ds m))

unfoldable pub on_parsed : Result → Text → Text → Outcome (List ConfDirective) → Result
unfolding judge is
on_parsed res path m o =
    let counted = noting res ((codes "directive_count", scalar (count (length o.value))) ∷ []) in
    elim o.err [
      | none ↦ judge counted o.value m
      | some e ↦
          if is e not_exist
          then fails (noting res ((codes "directive_count", scalar (count 0)) ∷ []))
              (lit "blocklist file does not exist: " ++ str path ∷ [])
          else errs counted (lit "parse " ++ str path ∷ lit ": " ++ e.message)
              (lit "copyfail: parse " ++ str path ∷ lit ": " ++ e.message)
    ]

abbrev pub opened : Time → Text → Text → Result
opened now path m =
    opening id title now
      (entry (codes "path") (str path ∷ []) ∷ entry (codes "module") (str m ∷ []) ∷ [])

unfoldable pub run_check : Files → Time → Text → Text → Result
unfolding on_parsed
run_check fs now path m = on_parsed (opened now path m) path m (parse_conf_file fs path)

-- The posture that the file must describe: the last install directive for the module runs
-- /bin/false, and there is a blacklist directive for it.
abbrev pub IsBlocked : Text → List ConfDirective → Type 0
IsBlocked m ds =
    LastInstall m ds (some required_install_target) × ((p : Place ds) × Is "blacklist" m p.here)

is_required_target_iff :
    (o : Option Text) → (is_required_target o ≡ true) ↔ (o ≡ some required_install_target)
unfolding is_required_target
is_required_target_iff none = ground arith
is_required_target_iff (some t) = ground (arith, equal_iff t required_install_target)

missing_iff :
    (ds : List ConfDirective) (m : Text)
    → (is_empty (missing ds m) ≡ true)
      ↔ ((is_required_target (install_target ds m) ≡ true) × (is_blacklisted ds m ≡ true))
unfolding missing
missing_iff ds m = ground arith

IsBlocked-missing :
    (ds : List ConfDirective) (m : Text) → (is_empty (missing ds m) ≡ true) ↔ IsBlocked m ds
IsBlocked-missing ds m =
    let found = install_target-LastInstall m ds (some required_install_target) in
    let listed = is_blacklisted_iff m ds in
    let target = is_required_target_iff (install_target ds m) in
    let both = missing_iff ds m in
    (
      λ h. (found.0 (target.0 (both.0 h).0), listed.0 (both.0 h).1),
      λ (l, p). both.1 (target.1 (found.1 l), listed.1 p),
    )

judge_iff :
    (res : Result) (ds : List ConfDirective) (m : Text)
    → ((judge res ds m).state ≡ pass ↔ is_empty (missing ds m) ≡ true)
      × ((judge res ds m).state ≡ fail ↔ is_empty (missing ds m) ≡ false)
unfolding judge
judge_iff res ds m = (ground arith, ground arith)

pub refute : (b : Bool) → ¬ b ≡ true → b ≡ false
refute b n = ground arith

on_parsed-states :
    (res : Result) (path m : Text) (o : Outcome (List ConfDirective))
    → ((on_parsed res path m o).state ≡ pass
        ↔ (o.err ≡ none) × (is_empty (missing o.value m) ≡ true))
      × ((on_parsed res path m o).state ≡ fail
          ↔ ((o.err ≡ none) × (is_empty (missing o.value m) ≡ false)) ⊎ Fails not_exist o.err)
unfolding on_parsed
on_parsed-states res path m o = elim (Option-cases o.err) [
  | inl q ↦ rw q (
      ground (
        arith,
        judge_iff (noting res ((codes "directive_count", scalar (count (length o.value))) ∷ []))
            o.value m,
      ))
  | inr (e, q) ↦ rw q (ground arith)
]

pub run_check-IsBlocked :
    (fs : Files) (now : Time) (path m : Text)
    → (((run_check fs now path m).state ≡ pass)
        ↔ (((parse_conf_file fs path).err ≡ none) × IsBlocked m (parse_conf_file fs path).value))
      × (((run_check fs now path m).state ≡ fail) ↔ (
          (((parse_conf_file fs path).err ≡ none) × (¬ IsBlocked m (parse_conf_file fs path).value))
          ⊎ Fails not_exist (parse_conf_file fs path).err))
unfolding run_check
run_check-IsBlocked fs now path m =
    let o = parse_conf_file fs path in
    let states = on_parsed-states (opened now path m) path m o in
    let blocked = IsBlocked-missing o.value m in
    (
      (λ h. ((states.0.0 h).0, blocked.0 (states.0.0 h).1), λ (n, b). states.0.1 (n, blocked.1 b)),
      (
        λ h. elim (states.1.0 h) [ inl (n, e) ↦ inl (n, λ b. cc (e, blocked.1 b)) | inr f ↦ inr f ],
        λ d. elim d [
          | inl (n, u) ↦
              states.1.1 (inl (n, refute (is_empty (missing o.value m)) (λ t. u (blocked.0 t))))
          | inr f ↦ states.1.1 (inr f)
        ],
      ),
    )
