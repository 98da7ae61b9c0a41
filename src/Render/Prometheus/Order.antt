-- ===== src/Render/Prometheus/Order.antt =====
-- What the order of the results means to internal/render/prom.go, and the rows of a check's state.
use mathlib.Core.List.{Permᴰ, Pairwise}
use copyfail_validation.Base.{List, true, ◌||◌, ◌≡◌, ◌≢◌, refl}
use copyfail_validation.Base.Sort.{sort_by_unique}
use copyfail_validation.Text.{Text}
use copyfail_validation.Text.Order.{encode, less_asymm, less_trans, less_total}
use copyfail_validation.Report.{Result, Report}
use copyfail_validation.Render.Prometheus.{
  by_check_id, sorted_by_check_id, check_state_metric, check_duration_metric, prometheus_text,
}

-- Results whose ids differ, as bytes.
abbrev pub IdsDiffer : List Result → Type 0
IdsDiffer = Pairwise (λ a b. encode a.check_id ≢ encode b.check_id)

told_apart :
    {rs : List Result}
    → IdsDiffer rs
    → Pairwise (λ a b. (by_check_id a b || by_check_id b a) ≡ true) rs
told_apart Pairwise.nil = Pairwise.nil
told_apart (Pairwise.cons {a = a} h d) =
    Pairwise.cons (λ b m. less_total a.check_id b.check_id (h b m)) (told_apart d)

sorted_unique :
    {xs ys : List Result}
    → Permᴰ xs ys
    → IdsDiffer xs
    → sorted_by_check_id xs ≡ sorted_by_check_id ys
unfolding sorted_by_check_id
sorted_unique p d =
    sort_by_unique by_check_id (λ a b. less_asymm a.check_id b.check_id)
      (λ a b c. less_trans a.check_id b.check_id c.check_id) p (told_apart d)

-- Where the ids of the results differ, the order in which they come makes no difference to the text.
pub prometheus_text-perm :
    (go_version : Text) (rep : Report) (results : List Result)
    → Permᴰ rep.results results
    → IdsDiffer rep.results
    → prometheus_text go_version rep ≡ prometheus_text go_version (record rep { results = results })
unfolding prometheus_text check_state_metric check_duration_metric
prometheus_text-perm go_version rep results p d = rw (sorted_unique p d) refl
