-- ===== src/Render/Prometheus/Atomic/Whole.antt =====
-- A whole run of WriteTextfileAtomic of internal/render/prom.go.
use copyfail_validation.Base.{
  ℕ, List, [], ◌∷◌, false, none, some, ◌≡◌, ◌≢◌, refl, ap, ◌∙◌, Bool-cases, Option-cases, inl, inr,
  is_empty, arith,
}
use copyfail_validation.Text.{Text, equal}
use copyfail_validation.Text.Laws.{equal_iff}
use copyfail_validation.Text.Scan.{byte_size}
use copyfail_validation.Errors.{Error, Outcome, ok}
use copyfail_validation.Report.{Report}
use copyfail_validation.Render.{flushed, flushed-none_iff}
use copyfail_validation.Render.Prometheus.{prometheus_text}
use copyfail_validation.Render.Prometheus.Atomic.{
  Op, open_temp, write, Disk, temp_path, final_path, on_rendered, with_temp, write_textfile_atomic,
}
use copyfail_validation.Render.Prometheus.Atomic.History.{
  Dir, apply, IsAtomic, on_rendered-IsAtomic, rendered,
}

-- A run that carries out nothing, or whose file is not opened.
idle-IsAtomic :
    (k : Disk) (temp final text : Text) (d : Dir) (n : ℕ) (e : Error)
    → IsAtomic k temp final text d (record { value = n; err = some e }) []
idle-IsAtomic k temp final text d n e = record {
  whole = inl refl;
  written = λ h. absurd (cc);
  undone = λ e h removed p. refl;
}

unopened-IsAtomic :
    (k : Disk) (temp final text : Text) (d : Dir) (r : Outcome ℕ × List Op) (q : Error)
    → k.opened ≡ some q
    → r.0.err ≢ none
    → r.1 ≡ open_temp temp ∷ []
    → IsAtomic k temp final text d r.0 r.1
unopened-IsAtomic k temp final text d r q h fails ops =
    let same : apply k (open_temp temp) d ≡ d = rw (h, apply) refl in
    rw ops (record {
      whole = (inl refl, inl (ap (λ x. x final) same));
      written = λ g. absurd (fails g);
      undone = λ e g removed p. ap (λ x. x p) same;
    })

with_temp-IsAtomic :
    (k : Disk) (temp final : Text) (rep : Report) (d : Dir)
    → let text = prometheus_text k.go_version rep in
      equal temp final ≡ false
      → (k.opened ≡ none → d temp ≡ none)
      → ((k.written text).err ≡ none
          → (k.written text).value ≡ byte_size text
          → k.stored text ≡ text)
      → IsAtomic k temp final text d (with_temp k temp final rep).0 (with_temp k temp final rep).1
unfolding with_temp
with_temp-IsAtomic k temp final rep d apart fresh stores =
    let text = prometheus_text k.go_version rep in
    let o = flushed (byte_size text) (k.written text) in
    elim (Option-cases k.opened) [
      | inr (q, h) ↦
          unopened-IsAtomic k temp final text d (with_temp k temp final rep) q h
            (rw (h, with_temp) (λ g. cc)) (rw (h, with_temp) refl)
      | inl h ↦
          let step : with_temp k temp final rep
              ≡ on_rendered k temp final o (open_temp temp ∷ write temp text ∷ []) =
            rw (h, with_temp) refl
            ∙ ap (λ p. on_rendered k temp final p.0 p.1) (rendered k temp rep) in
          rw step (
            on_rendered-IsAtomic k temp final text d apart h (fresh h) o (λ n.
              let (fine, all) = (flushed-none_iff (byte_size text) (k.written text)).0 n in
              stores fine all))
    ]

-- For a temporary file that is new and no other name of the final one, and a disk on which a write that
-- reports the whole count has stored the text: whoever reads the final file during the run sees the old
-- file or the complete text. A run without an error ends with the complete text and no temporary file,
-- and one with an error leaves the directory as it was, provided files can be removed.
pub write_textfile_atomic-IsAtomic :
    (k : Disk) (dir base suffix : Text) (rep : Report) (d : Dir)
    → let temp = temp_path k dir base suffix in
      let final = final_path k dir base in
      let text = prometheus_text k.go_version rep in
      k.suffix ≡ ok suffix
      → temp ≢ final
      → (k.opened ≡ none → d temp ≡ none)
      → ((k.written text).err ≡ none
          → (k.written text).value ≡ byte_size text
          → k.stored text ≡ text)
      → IsAtomic k temp final text d
          (write_textfile_atomic k dir base rep).0
          (write_textfile_atomic k dir base rep).1
unfolding write_textfile_atomic with_temp
write_textfile_atomic-IsAtomic k dir base suffix rep d named apart fresh stores =
    let temp = temp_path k dir base suffix in
    let final = final_path k dir base in
    let differ : equal temp final ≡ false = ground (arith, equal_iff temp final, apart) in
    elim (Bool-cases (is_empty dir)) [
      | inl e ↦ rw e (idle-IsAtomic k temp final _ d 0 _)
      | inr n ↦ elim (Bool-cases (is_empty base)) [
        | inl e ↦ rw n (rw e (idle-IsAtomic k temp final _ d 0 _))
        | inr m ↦
            let step : write_textfile_atomic k dir base rep ≡ with_temp k temp final rep =
              rw n (rw m (rw (named, write_textfile_atomic) refl)) in
            rw step (with_temp-IsAtomic k temp final rep d differ fresh stores)
      ]
    ]
