-- ===== src/Render/Prometheus/Atomic.antt =====
-- WriteTextfileAtomic of internal/render/prom.go: the operations on files that it carries out, in
-- their order. How each of them ends is a parameter.
pub mod History
pub mod Whole
use copyfail_validation.Base.{
  ℕ, List, [], ◌∷◌, ◌++◌, Bool, true, false, Option, none, some, is_empty, if◌then◌else◌,
}
use copyfail_validation.Text.{Text, codes}
use copyfail_validation.Errors.{
  Error, Outcome, Try, ok, err, sentinel, wrap_both, atomic_rename, render_failure, lit,
}
use copyfail_validation.Report.{Report}
use copyfail_validation.Render.{Writer}
use copyfail_validation.Render.Prometheus.{render_prometheus}

-- An operation that was tried.
pub data Op : Type 0 where
  open_temp : Text → Op
  write : Text → Text → Op
  sync : Text → Op
  close : Text → Op
  remove : Text → Op
  rename : Text → Text → Op

-- How the operations end: randSuffix, os.OpenFile with O_EXCL, Write with what it leaves in the file,
-- Sync, Close, os.Remove and os.Rename. filepath.Join and runtime.Version stand here too.
pub record Disk : Type 0 where
  pub path_join : Text → Text → Text
  pub go_version : Text
  pub suffix : Try Text
  pub opened : Option Error
  pub written : Text → Outcome ℕ
  pub stored : Text → Text
  pub synced : Option Error
  pub closed : Option Error
  pub removed : Option Error
  pub renamed : Option Error

abbrev pub temp_path : Disk → Text → Text → Text → Text
temp_path k dir base suffix = k.path_join dir (base ++ (codes ".tmp." ++ suffix))

abbrev pub final_path : Disk → Text → Text → Text
final_path k dir base = k.path_join dir (base ++ codes ".prom")

-- The open file as a writer.
abbrev pub temp_writer : Disk → Text → Writer (List Op)
temp_writer k temp ops s = (k.written s, ops ++ write temp s ∷ [])

abbrev pub failed : ℕ → Error → Outcome ℕ
failed n e = record { value = n; err = some e }

-- What follows once the report is rendered into the file.
unfoldable pub on_rendered : Disk → Text → Text → Outcome ℕ → List Op → Outcome ℕ × List Op
on_rendered k temp final o ops = elim o.err [
  | some e ↦ (o, ops ++ close temp ∷ remove temp ∷ [])
  | none ↦ elim k.synced [
    | some e ↦ (
      failed o.value (wrap_both render_failure (lit "render: renderer failure: fsync: ") e),
      ops ++ sync temp ∷ close temp ∷ remove temp ∷ [],
    )
    | none ↦ elim k.closed [
      | some e ↦ (
        failed o.value (wrap_both render_failure (lit "render: renderer failure: close: ") e),
        ops ++ sync temp ∷ close temp ∷ remove temp ∷ [],
      )
      | none ↦ elim k.renamed [
        | some e ↦ (
          failed o.value (wrap_both atomic_rename (lit "render: atomic rename failed: ") e),
          ops ++ sync temp ∷ close temp ∷ rename temp final ∷ remove temp ∷ [],
        )
        | none ↦ (
          record { value = o.value; err = none },
          ops ++ sync temp ∷ close temp ∷ rename temp final ∷ [],
        )
      ]
    ]
  ]
]

unfoldable pub with_temp : Disk → Text → Text → Report → Outcome ℕ × List Op
unfolding on_rendered render_prometheus
with_temp k temp final rep = elim k.opened [
  | some e ↦ (
    failed 0 (wrap_both render_failure (lit "render: renderer failure: open temp: ") e),
    open_temp temp ∷ [],
  )
  | none ↦
      let (o, ops) =
        render_prometheus (temp_writer k temp) k.go_version (open_temp temp ∷ []) rep in
      on_rendered k temp final o ops
]

unfoldable pub write_textfile_atomic : Disk → Text → Text → Report → Outcome ℕ × List Op
unfolding with_temp
write_textfile_atomic k dir base rep =
    if is_empty dir
    then (failed 0 (sentinel atomic_rename (lit "render: atomic rename failed: empty dir")), [])
    else if is_empty base
    then (
      failed 0 (sentinel atomic_rename (lit "render: atomic rename failed: empty baseName")),
      [],
    )
    else elim k.suffix [
      | err e ↦ (
        failed 0 (wrap_both render_failure (lit "render: renderer failure: random suffix: ") e),
        [],
      )
      | ok suffix ↦ with_temp k (temp_path k dir base suffix) (final_path k dir base) rep
    ]
