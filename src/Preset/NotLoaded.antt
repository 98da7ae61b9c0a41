-- ===== src/Preset/NotLoaded.antt =====
-- preset/copyfail/module_not_loaded.go: the kernel does not list the module.
use copyfail_validation.Base.{
  List, [], ◌∷◌, ◌++◌, true, false, none, some, if◌then◌else◌, ◌≡◌, ◌≢◌, ◌↔◌, inl, inr, arith,
  Option-cases, Bool-cases, length,
}
use copyfail_validation.Text.{Text, codes, equal}
use copyfail_validation.Text.Scan.{Reader, scan}
use copyfail_validation.Errors.{Error, Outcome, Try, ok, err, not_exist, is, str, quoted, num, lit}
use copyfail_validation.Report.{pass, fail, error, Time, text, scalar, object, flag, count, Result}
use copyfail_validation.Kernelmod.ProcModules.{LoadedModule, parse_proc_modules, is_loaded}
use copyfail_validation.Kernelmod.ProcModules.Sound.{lists, is_loaded-parse_proc_modules}
use copyfail_validation.Kernelmod.ConfDir.{Files}
use copyfail_validation.Preset.{opening, entry, noting, passes, fails, errs}

abbrev pub id : Text
id = codes "module.not_loaded"

abbrev pub title : Text
title = codes "Target module is not currently loaded"

abbrev pub description : Text
description =
    codes "Reads /proc/modules and verifies the configured module name does NOT appear "
    ++ codes "in the kernel's currently-loaded table. Even with a correct blocklist on disk, a "
    ++ codes "module that was loaded BEFORE the blocklist took effect (or was loaded manually "
    ++ codes "by an operator) remains active until the next reboot or explicit `rmmod`. This "
    ++ codes "check catches that gap."

abbrev pub proc_modules_path : Text
proc_modules_path = codes "/proc/modules"

abbrev zero_module : LoadedModule
zero_module = record { name = []; state = []; used_by = []; size = 0; ref_count = 0 }

unfoldable pub matched_module : List LoadedModule → Text → LoadedModule
unfolding equal
matched_module [] name = zero_module
matched_module (m ∷ mods) name = if equal m.name name then m else matched_module mods name

unfoldable pub loaded : Result → LoadedModule → Result
loaded res m =
    fails
      (noting res (
        (codes "is_loaded", scalar (flag true))
        ∷ (
          codes "matched",
          object (
              (codes "name", text (str m.name ∷ []))
              ∷ (codes "size", count m.size)
              ∷ (codes "refcount", count m.ref_count)
              ∷ (codes "state", text (str m.state ∷ []))
              ∷ []),
        )
        ∷ []))
      (str m.name ∷ lit " is currently loaded (refcount="
        ++ num m.ref_count ∷ lit ", state="
        ++ str m.state ∷ lit ")")

unfoldable pub on_parsed : Result → Text → Text → Outcome (List LoadedModule) → Result
unfolding loaded matched_module is_loaded
on_parsed res path name o =
    let noted = noting res ((codes "total_modules", scalar (count (length o.value))) ∷ []) in
    elim o.err [
      | some e ↦
          errs noted (lit "parse " ++ str path ∷ lit ": " ++ e.message)
            (lit "copyfail: parse " ++ str path ∷ lit ": " ++ e.message)
      | none ↦
          if is_loaded o.value name
          then loaded noted (matched_module o.value name)
          else passes (noting noted ((codes "is_loaded", scalar (flag false)) ∷ [])) (
              lit "module "
              ++ quoted name ∷ lit " is not loaded (scanned "
              ++ num (length o.value) ∷ lit " modules)")
    ]

unfoldable pub on_opened : Result → Text → Text → Try (Reader Error) → Result
unfolding on_parsed is
on_opened res path name (err e) =
    let failure = lit "copyfail: open " ++ str path ∷ lit ": " ++ e.message in
    if is e not_exist
    then errs res (lit "/proc not mounted (cannot enumerate loaded modules)") failure
    else errs res (lit "open " ++ str path ∷ lit ": " ++ e.message) failure
on_opened res path name (ok r) = on_parsed res path name (parse_proc_modules r)

abbrev pub opened : Time → Text → Text → Result
opened now path name =
    opening id title now
      (entry (codes "source") (str path ∷ []) ∷ entry (codes "module") (str name ∷ []) ∷ [])

unfoldable pub run_with_source : Files → Time → Text → Text → Result
unfolding on_opened
run_with_source fs now path name = on_opened (opened now path name) path name (fs.open_file path)

unfoldable pub run_check : Files → Time → Text → Result
unfolding run_with_source
run_check fs now name = run_with_source fs now proc_modules_path name

matched_module-is_loaded :
    (mods : List LoadedModule) (name : Text)
    → is_loaded mods name ≡ true
    → equal (matched_module mods name).name name ≡ true
unfolding matched_module is_loaded
matched_module-is_loaded [] name h = absurd (cc)
matched_module-is_loaded (m ∷ mods) name h = elim (Bool-cases (equal m.name name)) [
  | inl e ↦ rw e e
  | inr n ↦ rw (n, matched_module) (matched_module-is_loaded mods name (rw n at h))
]

-- What the check says about an open file.
abbrev Verdict : Result → Outcome (List LoadedModule) → Text → Type 0
Verdict r o name =
    (r.state ≡ pass ↔ (o.err ≡ none) × (is_loaded o.value name ≡ false))
    × (r.state ≡ fail ↔ (o.err ≡ none) × (is_loaded o.value name ≡ true))

on_parsed-Verdict :
    (res : Result) (path name : Text) (o : Outcome (List LoadedModule))
    → Verdict (on_parsed res path name o) o name
unfolding on_parsed loaded
on_parsed-Verdict res path name o = elim (Option-cases o.err) [
  | inl q ↦ rw q (ground arith)
  | inr (e, q) ↦ rw q (ground arith)
]

-- Where /proc/modules can be opened and every line of it parses, the check fails exactly if some line
-- has the module in its first column, and passes exactly if none has. Where it cannot be opened or
-- a line does not parse, the check reports an error, never a pass.
pub run_check-lists :
    (fs : Files) (now : Time) (name : Text)
    → ((r : Reader Error)
        → fs.open_file proc_modules_path ≡ ok r
        → (parse_proc_modules r).err ≡ none
        → ((run_check fs now name).state ≡ pass ↔ lists name (scan r).lines ≡ false)
          × ((run_check fs now name).state ≡ fail ↔ lists name (scan r).lines ≡ true))
      × ((r : Reader Error)
          → fs.open_file proc_modules_path ≡ ok r
          → (parse_proc_modules r).err ≢ none
          → (run_check fs now name).state ≡ error)
      × ((e : Error)
          → fs.open_file proc_modules_path ≡ err e
          → (run_check fs now name).state ≡ error)
unfolding run_check
run_check-lists fs now name = (
  λ r q n.
      let v =
        on_parsed-Verdict (opened now proc_modules_path name) proc_modules_path name
          (parse_proc_modules r) in
      let listed = is_loaded-parse_proc_modules r name n in rw q (ground (arith, v, listed, n)),
  λ r q n. rw q (
      ground (
        arith,
        on_parsed-Verdict (opened now proc_modules_path name) proc_modules_path name
            (parse_proc_modules r),
        n,
      )),
  λ e q. rw q (ground arith),
)
