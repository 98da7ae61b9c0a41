-- ===== src/Preset/ConfPresent.antt =====
-- preset/copyfail/modprobe_conf_present.go: the blocklist file is there and is a regular file.
use copyfail_validation.Base.{
  [], ◌∷◌, ◌++◌, Bool, true, false, if◌then◌else◌, ◌≡◌, ◌↔◌, inl, inr, arith,
}
use copyfail_validation.Text.{Text, codes}
use copyfail_validation.Errors.{Error, Try-cases, ok, err, not_exist, is, str, num, lit}
use copyfail_validation.Report.{pass, fail, error, Time, scalar, flag, count, Result}
use copyfail_validation.Kernelmod.ConfDir.{Mode, symlink, regular, irregular, FileInfo, Files}
use copyfail_validation.Preset.{opening, entry, noting, passes, fails, errs}

abbrev pub id : Text
id = codes "modprobe.conf_present"

abbrev pub title : Text
title = codes "Modprobe blocklist file present"

abbrev pub description : Text
description =
    codes "Verifies that the /etc/modprobe.d/*.conf file containing the AF_ALG-family "
    ++ codes "module blocklist directives exists on disk and is a regular file. A missing or "
    ++ codes "non-regular blocklist file means the modprobe-level mitigation for CVE-2026-31431 "
    ++ codes "is not deployed; remediate by writing the canonical blocklist to the path shown "
    ++ codes "in Evidence.path."

unfoldable pub is_regular : Mode → Bool
is_regular regular = true
is_regular _ = false

unfoldable pub on_info : Text → Result → FileInfo → Result
unfolding is_regular
on_info path res info =
    let noted = noting res (
      (codes "exists", scalar (flag true))
      ∷ (codes "is_regular", scalar (flag (is_regular info.mode)))
      ∷ (codes "size_bytes", scalar (count info.size))
      ∷ []) in
    if is_regular info.mode
    then passes noted
        (lit "blocklist file present at " ++ str path ∷ lit " (" ++ num info.size ∷ lit " bytes)")
    else fails noted (
        lit "blocklist path is not a regular file (mode="
        ++ str info.mode_text ∷ lit "): "
        ++ str path ∷ [])

unfoldable pub run_check : Files → Time → Text → Result
unfolding on_info is
run_check fs now path =
    let res = opening id title now (entry (codes "path") (str path ∷ []) ∷ []) in
    let absent = (codes "exists", scalar (flag false)) ∷ [] in
    elim (fs.stat path) [
      | err e ↦
          if is e not_exist
          then fails (noting res absent) (lit "blocklist file does not exist: " ++ str path ∷ [])
          else errs (noting res absent) (lit "stat " ++ str path ∷ lit ": " ++ e.message)
              (lit "copyfail: stat " ++ str path ∷ lit ": " ++ e.message)
      | ok info ↦ on_info path res info
    ]

is_regular_iff : (m : Mode) → (is_regular m ≡ true) ↔ (m ≡ regular)
unfolding is_regular
is_regular_iff regular = ground arith
is_regular_iff symlink = ground arith
is_regular_iff irregular = ground arith

on_info-pass :
    (path : Text) (res : Result) (i : FileInfo)
    → ((on_info path res i).state ≡ pass) ↔ (i.mode ≡ regular)
unfolding on_info
on_info-pass path res i = ground (arith, is_regular_iff i.mode)

-- The check passes exactly if there is a regular file at the path. It fails where there is none, and
-- where something else stands there; any other error of the file system is reported as an error.
pub run_check-states :
    (fs : Files) (now : Time) (path : Text)
    → (((run_check fs now path).state ≡ pass)
        ↔ ((i : FileInfo) × (fs.stat path ≡ ok i) × (i.mode ≡ regular)))
      × ((i : FileInfo)
          → fs.stat path ≡ ok i
          → is_regular i.mode ≡ false
          → (run_check fs now path).state ≡ fail)
      × ((e : Error)
          → fs.stat path ≡ err e
          → (run_check fs now path).state ≡ (if is e not_exist then fail else error))
unfolding run_check
run_check-states fs now path = elim (Try-cases (fs.stat path)) [
  | inl (i, q) ↦ ground (arith, q, is_regular_iff i.mode)
  | inr (e, q) ↦ ground (arith, q)
]
