-- ===== src/Render/Prometheus/Atomic/History.antt =====
-- What readers of the directory can see while WriteTextfileAtomic of internal/render/prom.go runs, and
-- what it leaves behind.
use copyfail_validation.Base.{
  ℕ, List, [], ◌∷◌, ◌++◌, false, Option, none, some, if◌then◌else◌, ◌≡◌, ◌≢◌, ◌⊎◌, refl, sym, ap,
  ◌∙◌, Bool-cases, Option-cases, inl, inr, All,
}
use copyfail_validation.Text.{Text, equal}
use copyfail_validation.Text.Laws.{equal_iff, equal_refl}
use copyfail_validation.Text.Scan.{byte_size}
use copyfail_validation.Errors.{Error, Outcome}
use copyfail_validation.Report.{Report}
use copyfail_validation.Render.{flush_all, flushed}
use copyfail_validation.Render.Prometheus.{
  prometheus_text, render_prometheus, check_state_metric, head_of, line_of,
}
use copyfail_validation.Render.Prometheus.Atomic.{
  Op, open_temp, write, sync, close, remove, rename, Disk, temp_writer, on_rendered,
}

-- The files of the directory, by path.
abbrev pub Dir : Type 0
Dir = Text → Option Text

abbrev pub put : Text → Option Text → Dir → Dir
put p v d q = if equal p q then v else d q

-- The contents after a write.
abbrev grown : Option Text → Text → Option Text
grown none s = none
grown (some old) s = some (old ++ s)

-- What an operation changes, by how it ends.
abbrev pub apply : Disk → Op → Dir → Dir
apply k (open_temp p) d = elim k.opened as (λ _. Dir) [ none ↦ put p (some []) d | some e ↦ d ]
apply k (write p s) d = put p (grown (d p) (k.stored s)) d
apply k (sync p) d = d
apply k (close p) d = d
apply k (remove p) d = elim k.removed as (λ _. Dir) [ none ↦ put p none d | some e ↦ d ]
apply k (rename p q) d = elim k.renamed as (λ _. Dir) [
  | none ↦ put p none (put q (d p) d)
  | some e ↦ d
]

abbrev pub apply_all : Disk → List Op → Dir → Dir
apply_all k [] d = d
apply_all k (op ∷ ops) d = apply_all k ops (apply k op d)

apply_all-append :
    (k : Disk) (xs ys : List Op) (d : Dir)
    → apply_all k (xs ++ ys) d ≡ apply_all k ys (apply_all k xs d)
apply_all-append k [] ys d = refl
apply_all-append k (op ∷ xs) ys d = apply_all-append k xs ys (apply k op d)

-- A property of the directory before and after every operation.
abbrev pub Always : (Dir → Type 0) → Disk → List Op → Dir → Type 0
Always P k [] d = P d
Always P k (op ∷ ops) d = P d × Always P k ops (apply k op d)

pub rendered :
    (k : Disk) (temp : Text) (rep : Report)
    → render_prometheus (temp_writer k temp) k.go_version (open_temp temp ∷ []) rep ≡ (
      flushed
          (byte_size (prometheus_text k.go_version rep))
          (k.written (prometheus_text k.go_version rep)),
      open_temp temp ∷ write temp (prometheus_text k.go_version rep) ∷ [],
    )
unfolding render_prometheus flush_all prometheus_text check_state_metric head_of line_of
rendered k temp rep = refl

-- What a run on the directory `d` may show and leave: at every moment the final file is the old one or
-- the complete text; where the run succeeds it is the complete text and the temporary file is gone;
-- where it fails and files can be removed, the directory is what it was.
pub record IsAtomic (k : Disk) (temp final text : Text) (d : Dir) (o : Outcome ℕ) (ops : List Op)
    : Type 0 where
  pub whole : Always (λ x. (x final ≡ d final) ⊎ (x final ≡ some text)) k ops d
  pub written :
      o.err ≡ none → (apply_all k ops d final ≡ some text) × (apply_all k ops d temp ≡ none)
  pub undone :
      (e : Error) → o.err ≡ some e → k.removed ≡ none → (p : Text) → apply_all k ops d p ≡ d p

module _ (k : Disk) (temp final text : Text) (d : Dir) (apart : equal temp final ≡ false) where
  -- The operation leaves the final file alone.
  abbrev Quiet : Op → Type 0
  Quiet op = (x : Dir) → apply k op x final ≡ x final

  abbrev Safe : Dir → Type 0
  Safe x = (x final ≡ d final) ⊎ (x final ≡ some text)

  Quiet-open : Quiet (open_temp temp)
  Quiet-open x = elim (Option-cases k.opened) [
    | inl n ↦ rw (n, apply) (rw apart refl)
    | inr (e, q) ↦ rw (q, apply) refl
  ]

  Quiet-write : (s : Text) → Quiet (write temp s)
  Quiet-write s x = rw apart refl

  Quiet-remove : Quiet (remove temp)
  Quiet-remove x = elim (Option-cases k.removed) [
    | inl n ↦ rw (n, apply) (rw apart refl)
    | inr (e, q) ↦ rw (q, apply) refl
  ]

  Quiet-rename : (e : Error) → k.renamed ≡ some e → Quiet (rename temp final)
  Quiet-rename e q x = rw (q, apply) refl

  -- Before operations that are quiet, nothing but what follows them matters.
  Always-Quiet :
      (ops rest : List Op) (x : Dir)
      → All Quiet ops
      → x final ≡ d final
      → (apply_all k ops x final ≡ d final → Always Safe k rest (apply_all k ops x))
      → Always Safe k (ops ++ rest) x
  Always-Quiet [] rest x h same later = later same
  Always-Quiet (op ∷ ops) rest x h same later =
      (inl same, Always-Quiet ops rest (apply k op x) h.1 (h.0 x ∙ same) later)

  module _ (opened : k.opened ≡ none) (fresh : d temp ≡ none) where
    -- The directory once the text is written.
    abbrev after_write : Dir
    after_write = apply k (write temp text) (apply k (open_temp temp) d)

    after_write_final : after_write final ≡ d final
    after_write_final = Quiet-write text (apply k (open_temp temp) d) ∙ Quiet-open d

    removed_undone : k.removed ≡ none → (p : Text) → apply k (remove temp) after_write p ≡ d p
    removed_undone removed p = elim (Bool-cases (equal temp p)) [
      | inl e ↦ rw (removed, apply) (rw e (rw (← (equal_iff temp p).0 e) (sym fresh)))
      | inr n ↦ rw (removed, apply) (rw (opened, apply) (rw n refl))
    ]

    after_write_temp : after_write temp ≡ some (k.stored text)
    after_write_temp = rw (opened, apply) (rw (equal_refl temp) refl)

    renamed_final :
        k.renamed ≡ none
        → (apply k (rename temp final) after_write final ≡ some (k.stored text))
          × (apply k (rename temp final) after_write temp ≡ none)
    renamed_final renamed =
        rw (renamed, apply)
          (rw (apart, equal_refl final) after_write_temp, rw (equal_refl temp) refl)

    -- A run that fails behind the write.
    failed-IsAtomic :
        (r : Outcome ℕ × List Op) (middle : List Op)
        → r.1 ≡ open_temp temp ∷ write temp text ∷ (middle ++ remove temp ∷ [])
        → r.0.err ≢ none
        → All Quiet middle
        → apply_all k middle after_write ≡ after_write
        → IsAtomic k temp final text d r.0 r.1
    failed-IsAtomic r middle ops fails quiet same = rw ops (record {
      whole =
          Always-Quiet (open_temp temp ∷ write temp text ∷ []) (middle ++ remove temp ∷ []) d
            (Quiet-open, (Quiet-write text, tt)) refl
            (λ h.
              Always-Quiet middle (remove temp ∷ []) after_write quiet h
                (λ g. (inl g, inl (Quiet-remove (apply_all k middle after_write) ∙ g))));
      written = λ h. absurd (fails h);
      undone = λ e h removed p.
          ap (λ x. x p)
            (apply_all-append k middle (remove temp ∷ []) after_write
              ∙ ap (apply k (remove temp)) same)
          ∙ removed_undone removed p;
    })

    renamed-IsAtomic :
        (n : ℕ)
        → k.renamed ≡ none
        → k.stored text ≡ text
        → IsAtomic k temp final text d
            (record { value = n; err = none })
            (open_temp temp ∷ write temp text ∷ sync temp ∷ close temp ∷ rename temp final ∷ [])
    renamed-IsAtomic n renamed stored =
        let (there, away) = renamed_final renamed in
        let complete = there ∙ ap some stored in
        record {
          whole =
              Always-Quiet (open_temp temp ∷ write temp text ∷ sync temp ∷ close temp ∷ [])
                (rename temp final ∷ []) d
                (Quiet-open, (Quiet-write text, (λ x. refl, (λ x. refl, tt)))) refl
                (λ h. (inl h, inr complete));
          written = λ h. (complete, away);
          undone = λ e h. absurd (cc);
        }

    by_result :
        {r : Outcome ℕ × List Op} {o : Outcome ℕ} {ops : List Op}
        → r ≡ (o, ops)
        → IsAtomic k temp final text d o ops
        → IsAtomic k temp final text d r.0 r.1
    by_result e a = rw e a

    pub on_rendered-IsAtomic :
        (o : Outcome ℕ)
        → (o.err ≡ none → k.stored text ≡ text)
        → let r = on_rendered k temp final o (open_temp temp ∷ write temp text ∷ []) in
          IsAtomic k temp final text d r.0 r.1
    unfolding on_rendered
    on_rendered-IsAtomic o stored =
        let ops = open_temp temp ∷ write temp text ∷ [] in
        let r = on_rendered k temp final o ops in
        elim (Option-cases o.err) [
          | inr (e, q) ↦
              failed-IsAtomic r (close temp ∷ []) (rw (q, on_rendered) refl)
                (rw (q, on_rendered) (λ h. cc (q, h))) (λ x. refl, tt) refl
          | inl n ↦ elim (Option-cases k.synced) [
            | inr (e, q) ↦
                failed-IsAtomic r (sync temp ∷ close temp ∷ [])
                  (rw (n, on_rendered) (rw (q, on_rendered) refl))
                  (rw (n, on_rendered) (rw (q, on_rendered) (λ h. cc))) (λ x. refl, (λ x. refl, tt))
                  refl
            | inl sy ↦ elim (Option-cases k.closed) [
              | inr (e, q) ↦
                  failed-IsAtomic r (sync temp ∷ close temp ∷ [])
                    (rw (n, on_rendered) (rw (sy, on_rendered) (rw (q, on_rendered) refl)))
                    (rw (n, on_rendered) (rw (sy, on_rendered) (rw (q, on_rendered) (λ h. cc))))
                    (λ x. refl, (λ x. refl, tt)) refl
              | inl cl ↦ elim (Option-cases k.renamed) [
                | inr (e, q) ↦
                    failed-IsAtomic r (sync temp ∷ close temp ∷ rename temp final ∷ [])
                      (rw (n, on_rendered)
                        (rw (sy, on_rendered) (rw (cl, on_rendered) (rw (q, on_rendered) refl))))
                      (rw (n, on_rendered)
                        (rw (sy, on_rendered)
                          (rw (cl, on_rendered) (rw (q, on_rendered) (λ h. cc)))))
                      (λ x. refl, (λ x. refl, (Quiet-rename e q, tt))) (rw (q, apply) refl)
                | inl re ↦
                    by_result
                      (rw (n, on_rendered)
                        (rw (sy, on_rendered) (rw (cl, on_rendered) (rw (re, on_rendered) refl))))
                      (renamed-IsAtomic o.value re (stored n))
              ]
            ]
          ]
        ]
