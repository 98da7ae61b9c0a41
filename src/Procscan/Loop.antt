-- ===== src/Procscan/Loop.antt =====
-- The loop of scanWithRoot of internal/procscan/afalg.go: what it adds to a result.
use mathlib.Core.List.{append-nil, append_assoc}
use native.Mathlib.Nat.{add-zero}
use copyfail_validation.Base.{
  ℕ, zero, suc, List, [], ◌∷◌, ◌++◌, Bool, false, not, none, some, ◌+◌, ◌<◌, ◌≡◌, refl, ap, ◌∙◌,
  arith, length, take, keep, Bool-cases, Option-cases, inl, inr,
}
use copyfail_validation.Text.{Text}
use copyfail_validation.Errors.{Error, wrap, lit, num, ok, err, Try-cases, is, not_exist}
use copyfail_validation.Procscan.{
  Candidate, ScanResult, Proc, maps_path, candidate, find_af_alg_match, look_at, sort_ints,
  scan_pids,
}

-- The maps of the process could not be read, and not because it is gone.
abbrev pub is_unreadable : Proc → Text → ℕ → Bool
is_unreadable p root pid = elim (p.read_file (maps_path p root pid)) as (λ _. Bool) [
  | ok maps ↦ false
  | err e ↦ not (is e not_exist)
]

-- What is reported of a process, where its maps can be read and name a module.
abbrev pub found : Proc → Text → ℕ → List Candidate
found p root pid = elim (p.read_file (maps_path p root pid)) as (λ _. List Candidate) [
  | err e ↦ []
  | ok maps ↦ elim (find_af_alg_match maps) as (λ _. List Candidate) [
    | none ↦ []
    | some (m, line) ↦ candidate p root pid m line ∷ []
  ]
]

abbrev pub all_found : Proc → Text → List ℕ → List Candidate
all_found p root [] = []
all_found p root (pid ∷ pids) = found p root pid ++ all_found p root pids

-- A result, extended by the report on some processes.
abbrev pub extended : Proc → Text → ScanResult → List ℕ → ScanResult
extended p root r pids = record {
  unreadable_pids = r.unreadable_pids ++ keep (is_unreadable p root) pids;
  candidates = r.candidates ++ all_found p root pids;
  scanned_pids = r.scanned_pids + length pids;
}

-- The report on some processes.
abbrev pub report_on : Proc → Text → List ℕ → ScanResult
report_on p root pids = record {
  unreadable_pids = keep (is_unreadable p root) pids;
  candidates = all_found p root pids;
  scanned_pids = length pids;
}

module _ (p : Proc) (root : Text) where
  look_at-extended :
      (r : ScanResult) (pid : ℕ)
      → look_at p root (record r { scanned_pids = r.scanned_pids + 1 }) pid
        ≡ extended p root r (pid ∷ [])
  unfolding look_at
  look_at-extended r pid = elim (Try-cases (p.read_file (maps_path p root pid))) [
    | inl (maps, q) ↦ elim (Option-cases (find_af_alg_match maps)) [
      | inl n ↦
          rw (q, look_at, found, is_unreadable)
            (rw (n, look_at, found)
              (ground (arith, append-nil r.candidates, append-nil r.unreadable_pids)))
      | inr ((m, line), y) ↦
          rw (q, look_at, found, is_unreadable)
            (rw (y, look_at, found) (ground (arith, append-nil r.unreadable_pids)))
    ]
    | inr (e, q) ↦ elim (Bool-cases (is e not_exist)) [
      | inl g ↦
          rw (q, look_at, found, is_unreadable)
            (rw g (ground (arith, append-nil r.candidates, append-nil r.unreadable_pids)))
      | inr u ↦
          rw (q, look_at, found, is_unreadable) (rw u (ground (arith, append-nil r.candidates)))
    ]
  ]

  extended-cons :
      (r : ScanResult) (pid : ℕ) (pids : List ℕ)
      → extended p root (extended p root r (pid ∷ [])) pids ≡ extended p root r (pid ∷ pids)
  extended-cons r pid pids = elim (Bool-cases (is_unreadable p root pid)) [
    | inl y ↦ rw y (
        ground (
          arith,
          append_assoc r.candidates (found p root pid) (all_found p root pids),
          append-nil (found p root pid),
          append_assoc r.unreadable_pids (pid ∷ []) (keep (is_unreadable p root) pids),
        ))
    | inr n ↦ rw n (
        ground (
          arith,
          append_assoc r.candidates (found p root pid) (all_found p root pids),
          append-nil (found p root pid),
          append-nil r.unreadable_pids,
        ))
  ]

  -- The context is not canceled before `k` more processes are looked at.
  abbrev pub Runs : ℕ → ℕ → Type 0
  Runs n k = (i : ℕ) → i < k → p.ctx_err (n + i) ≡ none

  Runs-head : (n k : ℕ) → Runs n (suc k) → p.ctx_err n ≡ none
  Runs-head n k h = rw (← add-zero n) (h 0 (omega arith))

  Runs-tail : (n k : ℕ) → Runs n (suc k) → Runs (n + 1) k
  Runs-tail n k h =
      λ i l. let shift : n + 1 + i ≡ n + suc i = omega arith in rw shift (h (suc i) (omega arith))

  scan_pids-cons :
      (r : ScanResult) (pid : ℕ) (pids : List ℕ)
      → p.ctx_err r.scanned_pids ≡ none
      → scan_pids p root r (pid ∷ pids) ≡ scan_pids p root (extended p root r (pid ∷ [])) pids
  unfolding scan_pids
  scan_pids-cons r pid pids h =
      rw (h, scan_pids) (ap (λ t. scan_pids p root t pids) (look_at-extended r pid))

  pub scan_pids_whole :
      (r : ScanResult) (pids : List ℕ)
      → Runs r.scanned_pids (length pids)
      → scan_pids p root r pids ≡ record {
        value = record (extended p root r pids) {
          unreadable_pids = sort_ints (r.unreadable_pids ++ keep (is_unreadable p root) pids);
        };
        err = none;
      }
  unfolding scan_pids
  scan_pids_whole r [] h = ground (arith, append-nil r.candidates, append-nil r.unreadable_pids)
  scan_pids_whole r (pid ∷ pids) h =
      scan_pids-cons r pid pids (Runs-head r.scanned_pids (length pids) h)
      ∙ scan_pids_whole (extended p root r (pid ∷ [])) pids
          (Runs-tail r.scanned_pids (length pids) h)
      ∙ ap
          (λ t. record {
            value = record t { unreadable_pids = sort_ints t.unreadable_pids };
            err = none;
          })
          (extended-cons r pid pids)

  pub scan_pids_canceled :
      (r : ScanResult) (pids : List ℕ) (k : ℕ) (e : Error)
      → k < length pids
      → Runs r.scanned_pids k
      → p.ctx_err (r.scanned_pids + k) ≡ some e
      → ((scan_pids p root r pids).value ≡ extended p root r (take k pids))
        × ((m : Error) × ((scan_pids p root r pids).err ≡ some m) × (m.chain ≡ e.chain))
  unfolding scan_pids
  scan_pids_canceled r [] k e l h c = absurd (omega arith)
  scan_pids_canceled r (pid ∷ pids) zero e l h c =
      let now : p.ctx_err r.scanned_pids ≡ some e = rw add-zero at c in
      (
        rw (now, scan_pids) (ground (arith, append-nil r.candidates, append-nil r.unreadable_pids)),
        (
          wrap (lit "procscan: scan canceled at pid " ++ num pid ∷ lit ": ") e,
          rw (now, scan_pids) refl,
          refl,
        ),
      )
  scan_pids_canceled r (pid ∷ pids) (suc k) e l h c =
      let step = scan_pids-cons r pid pids (Runs-head r.scanned_pids k h) in
      let shift : r.scanned_pids + 1 + k ≡ r.scanned_pids + suc k = omega arith in
      let (v, (m, s, same)) =
        scan_pids_canceled (extended p root r (pid ∷ [])) pids k e (omega arith)
          (Runs-tail r.scanned_pids k h) (ap p.ctx_err shift ∙ c) in
      (
        ap (λ o. o.value) step ∙ v ∙ extended-cons r pid (take k pids),
        (m, ap (λ o. o.err) step ∙ s, same),
      )
