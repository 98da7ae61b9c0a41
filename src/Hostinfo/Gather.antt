-- ===== src/Hostinfo/Gather.antt =====
-- internal/hostinfo/hostinfo.go: the facts that a report states of the host. What the operating system
-- answers and the runner are parameters.
pub mod Facts
use copyfail_validation.Base.{
  ℕ, List, [], ◌∷◌, ◌++◌, Bool, true, false, Option, none, some, ◌==◌, if◌then◌else◌, ◌≡◌, ◌↔◌,
  refl, arith, Bool-cases, Option-cases, inl, inr,
}
use copyfail_validation.Base.Int.{ℤ, pos, negsuc}
use copyfail_validation.Text.{Text, codes, trim_space}
use copyfail_validation.Text.Scan.{Reader}
use copyfail_validation.Errors.{
  Error, Outcome, Try, ok, err, is, not_exist, wrap, plain, str, quoted, int, lit,
}
use copyfail_validation.Exec.{Cmd, Result, trusted}
use copyfail_validation.Report.{HostInfo}
use copyfail_validation.Hostinfo.OsRelease.{OsRelease, nothing, parse_os_release}

-- os.Hostname, os.Open and filepath.Join.
pub record System : Type 0 where
  pub hostname : Try Text
  pub open_file : Text → Try (Reader Error)
  pub path_join : Text → Text → Text

abbrev pub os_release_path : System → Text → Text
os_release_path sys root = sys.path_join root (codes "etc/os-release")

unfoldable pub read_os_release_file : System → Text → Outcome OsRelease
unfolding parse_os_release
read_os_release_file sys path = elim (sys.open_file path) [
  | err e ↦ record { value = nothing; err = some e }
  | ok r ↦ parse_os_release r
]

abbrev pub uname : Text → Cmd
uname flag = record { name = codes "uname"; args = trusted flag ∷ []; env = none; timeout = pos 0 }

abbrev pub is_zero : ℤ → Bool
is_zero (pos n) = n == 0
is_zero (negsuc n) = false

abbrev pub exit_failure : Result → Error
exit_failure res = plain (
    lit "hostinfo: uname exited with code "
    ++ int res.exit_code ∷ lit " (stderr="
    ++ quoted (trim_space res.stderr) ∷ lit ")")

-- What unameField makes of the outcome of the command.
unfoldable pub uname_answer : Outcome Result → Try Text
unfolding trim_space
uname_answer o = elim o.err [
  | some e ↦ err e
  | none ↦
      if is_zero o.value.exit_code
      then ok (trim_space o.value.stdout)
      else err (exit_failure o.value)
]

abbrev pub no_facts : HostInfo
no_facts = record {
  hostname = [];
  kernel_release = [];
  os_release = [];
  os_version = [];
  arch = [];
}

unfoldable pub with_hostname : Try Text → HostInfo → HostInfo
with_hostname (ok name) host = record host { hostname = name }
with_hostname (err e) host = host

-- What the file adds, or the error that ends the gathering.
unfoldable pub with_os_release : Text → Outcome OsRelease → HostInfo → Outcome HostInfo
unfolding is
with_os_release path o host = elim o.err [
  | none ↦ record {
    value = record host { os_release = o.value.id; os_version = o.value.version_id };
    err = none;
  }
  | some e ↦ if is e not_exist then record { value = host; err = none } else record {
    value = host;
    err = some (wrap (lit "hostinfo: parse os-release at " ++ str path ∷ lit ": ") e);
  }
]

module _ {ℓ} {R : Type ℓ} (run : R → Cmd → Outcome Result × R) where
  unfoldable pub with_arch : R → HostInfo → Outcome HostInfo × R
  unfolding uname_answer
  with_arch r host =
      let (o, s) = run r (uname (codes "-m")) in
      (
        elim (uname_answer o) [
          | err e ↦ record { value = host; err = some (wrap (lit "hostinfo: uname -m: ") e) }
          | ok arch ↦ record { value = record host { arch = arch }; err = none }
        ],
        s,
      )

  unfoldable pub with_kernel : R → HostInfo → Outcome HostInfo × R
  unfolding uname_answer with_arch
  with_kernel r host =
      let (o, s) = run r (uname (codes "-r")) in
      elim (uname_answer o) [
        | err e ↦ (record { value = host; err = some (wrap (lit "hostinfo: uname -r: ") e) }, s)
        | ok kernel ↦ with_arch s (record host { kernel_release = kernel })
      ]

  -- The two commands, unless the file ended the gathering.
  unfoldable pub after_file : R → Outcome HostInfo → Outcome HostInfo × R
  unfolding with_kernel
  after_file r o = elim o.err [ some e ↦ (o, r) | none ↦ with_kernel r o.value ]

  unfoldable pub gather_with_root : System → R → Text → Outcome HostInfo × R
  unfolding after_file with_os_release with_hostname read_os_release_file
  gather_with_root sys r root =
      let path = os_release_path sys root in
      after_file r
        (with_os_release path (read_os_release_file sys path) (with_hostname sys.hostname no_facts))

  -- Gather
  unfoldable pub gather : System → R → Outcome HostInfo × R
  unfolding gather_with_root
  gather sys r = gather_with_root sys r (codes "/")
