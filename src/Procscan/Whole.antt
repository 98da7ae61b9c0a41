-- ===== src/Procscan/Whole.antt =====
-- What the whole scan of internal/procscan/afalg.go reports, however far it gets.
use mathlib.Core.List.{Perm}
use native.Mathlib.Nat.{zero-add}
use copyfail_validation.Base.{
  ℕ, List, [], ◌∷◌, true, false, none, some, ltb, ◌<◌, ◌≡◌, refl, ap, ◌∙◌, arith, length, take,
}
use copyfail_validation.Base.Sort.{IsSorted, sort_by-IsSorted, sort_by-perm}
use copyfail_validation.Text.{Text, codes}
use copyfail_validation.Errors.{Error, ok}
use copyfail_validation.Procscan.{
  Proc, sort_ints, scan_pids, collect_pids, nothing_scanned, scan_with_root,
}
use copyfail_validation.Procscan.Loop.{extended, report_on, scan_pids_canceled}

ltb_asymm : (a b : ℕ) → ltb a b ≡ true → ltb b a ≡ false
ltb_asymm a b h = ground (arith, h)

-- The processes of a directory, in order: those that its names stand for, smaller numbers first.
pub record Processes (names : List Text) (pids : List ℕ) : Type 0 where
  pub permutes : Perm pids (collect_pids names)
  pub ascending : IsSorted ltb pids

processes : (names : List Text) → Processes names (sort_ints (collect_pids names))
unfolding sort_ints
processes names = record {
  permutes = sort_by-perm ltb (collect_pids names);
  ascending = sort_by-IsSorted ltb ltb_asymm (collect_pids names);
}

extended-nothing :
    (p : Proc) (root : Text) (pids : List ℕ)
    → extended p root nothing_scanned pids ≡ report_on p root pids
extended-nothing p root pids = ground arith

module _ (p : Proc) (root : Text) (names : List Text)
    (there : p.stat (p.path_join (root ∷ codes "self" ∷ [])) ≡ none)
    (listed : p.read_dir root ≡ ok names) where
  started :
      scan_with_root p root ≡ scan_pids p root nothing_scanned (sort_ints (collect_pids names))
  unfolding scan_with_root
  started = rw (there, scan_with_root) (rw (listed, scan_with_root) refl)

  -- Where the context is canceled once `k` of the processes have been looked at, the scan ends with that
  -- error, and its result is the report on the first `k`.
  pub scan_with_root-canceled :
      (k : ℕ) (e : Error)
      → k < length (sort_ints (collect_pids names))
      → ((i : ℕ) → i < k → p.ctx_err i ≡ none)
      → p.ctx_err k ≡ some e
      → (pids : List ℕ) × Processes names pids
        × ((scan_with_root p root).value ≡ report_on p root (take k pids))
        × (m : Error) × ((scan_with_root p root).err ≡ some m)
        × (m.chain ≡ e.chain)
  scan_with_root-canceled k e l runs c =
      let pids = sort_ints (collect_pids names) in
      let (v, (m, s, same)) =
        scan_pids_canceled p root nothing_scanned pids k e l (λ i h. rw zero-add (runs i h))
          (rw zero-add c) in
      (
        pids,
        processes names,
        ap (λ o. o.value) started ∙ v ∙ extended-nothing p root (take k pids),
        m,
        ap (λ o. o.err) started ∙ s,
        same,
      )
