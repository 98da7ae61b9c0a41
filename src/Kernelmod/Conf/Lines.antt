-- ===== src/Kernelmod/Conf/Lines.antt =====
-- Where directives come from: their words, their source and their line numbers.
use copyfail_validation.Base.{
  ℕ, ◌+◌, ◌≤◌, ◌<◌, List, [], ◌∷◌, ◌++◌, ◌||◌, Option, none, some, inl, inr, ◌≡◌, refl, arith,
  length, Bool-cases, is_empty, if◌then◌else◌,
}
use copyfail_validation.Text.{
  Text, codes, has_suffix, trim_space, trim_left, trim_right, drop_last, is_blank,
}
use copyfail_validation.Text.Scan.{Reader, ScanError, too_long, read_error, scan}
use copyfail_validation.Errors.{Error, Outcome}
use copyfail_validation.Kernelmod.Conf.{
  ConfDirective, ConfState, Step, continue, abort, initial, emit, keep_pending, flush, strip, step,
  settle, Step-cases, finish, run, parse_conf_reader,
}
use copyfail_validation.Kernelmod.Conf.Directives.{
  last_line, AreDirectives, emit-cases, AreDirectives-append, AreDirectives-later,
}

-- What holds between two lines: a pending block began behind the last directive.
abbrev Pending : Text → ℕ → ℕ → ℕ → Type 0
Pending [] last start n = Unit
Pending (c ∷ p) last start n = (last < start) × (start ≤ n)

record Inv (source : Text) (s : ConfState) : Type 0 where
  directives : AreDirectives source s.line_num s.directives
  pending : Pending s.pending (last_line 0 s.directives) s.pending_start s.line_num

abbrev Sound : Text → ℕ → Step → Type 0
Sound source n (continue t) = Inv source t × (t.line_num ≡ n)
Sound source n (abort ds e) = AreDirectives source n ds

emit-Sound :
    (source : Text) (s : ConfState) (joined : Text) (n : ℕ)
    → AreDirectives source s.line_num s.directives
    → s.pending ≡ []
    → last_line 0 s.directives < n
    → n ≤ s.line_num
    → Sound source s.line_num (emit source s joined n)
emit-Sound source s joined n a p l w = elim (emit-cases source s joined n) [
  | inl (e, q) ↦ rw q a
  | inr (d, q, i, at) ↦ rw q (
    record {
      directives = AreDirectives-append d a i (omega arith) (omega arith);
      pending = rw p tt;
    },
    refl,
  )
]

Pending-any : (p : Text) (last start n : ℕ) → last < start → start ≤ n → Pending p last start n
Pending-any [] last start n l w = tt
Pending-any (c ∷ p) last start n l w = (l, w)

Pending-later :
    (p : Text) (last start n : ℕ) → Pending p last start n → Pending p last start (n + 1)
Pending-later [] last start n h = tt
Pending-later (c ∷ p) last start n h = (h.0, omega (arith, h.1))

-- The state of the next line, before anything is done with it.
next_line-Inv :
    (source : Text) (s : ConfState)
    → Inv source s
    → Inv source (record s { line_num = s.line_num + 1 })
next_line-Inv source s v = record {
  directives = AreDirectives-later v.directives (omega arith);
  pending = Pending-later s.pending _ _ _ v.pending;
}

module _ (source : Text) (s : ConfState) (stripped : Text) (v : Inv source s)
    (fresh : last_line 0 s.directives < s.line_num) where
  keep_with :
      (content p : Text)
      → Pending p (last_line 0 s.directives) s.pending_start s.line_num
      → Inv source (
          if is_empty p
          then record s { pending = content; pending_start = s.line_num }
          else record s { pending = p ++ (b' ' ∷ content) })
  keep_with content [] h = record {
    directives = v.directives;
    pending = Pending-any content _ _ _ fresh (omega arith);
  }
  keep_with content (c ∷ p) h = record { directives = v.directives; pending = h }

  keep_pending-Inv : Inv source (keep_pending s stripped)
  unfolding keep_pending
  keep_pending-Inv = keep_with (trim_right is_blank (drop_last stripped)) s.pending v.pending

  flush_with :
      (p : Text)
      → s.pending ≡ p
      → Pending p (last_line 0 s.directives) s.pending_start s.line_num
      → Sound source s.line_num (
          if is_empty p
          then emit source s stripped s.line_num
          else emit source
              (record s { pending = []; pending_start = 0 })
              (p ++ (b' ' ∷ trim_left is_blank stripped))
              s.pending_start)
  flush_with [] e h = emit-Sound source s stripped _ v.directives e fresh (omega arith)
  flush_with (c ∷ p) e h =
      emit-Sound source (record s { pending = []; pending_start = 0 }) _ s.pending_start
        v.directives refl h.0 h.1

  flush-Sound : Sound source s.line_num (flush source s stripped)
  unfolding flush
  flush-Sound = flush_with s.pending refl v.pending

line_num-keep_pending :
    (s : ConfState) (stripped : Text) → (keep_pending s stripped).line_num ≡ s.line_num
unfolding keep_pending
line_num-keep_pending s stripped = ground arith

step-Sound :
    (source : Text) (s : ConfState) (raw : Text)
    → Inv source s
    → Sound source (s.line_num + 1) (step source s raw)
unfolding step
step-Sound source s raw v = elim (Bool-cases (is_empty (trim_space (strip raw)))) [
  | inl e ↦ rw e (next, refl)
  | inr e ↦ rw e (elim (Bool-cases (has_suffix (strip raw) (codes "\\"))) [
    | inl c ↦ rw c (keep_pending-Inv source _ (strip raw) next fresh, line_num-keep_pending _ _)
    | inr c ↦ rw c (flush-Sound source _ (strip raw) next fresh)
  ])
]
  where
    next : Inv source (record s { line_num = s.line_num + 1 })
    next = next_line-Inv source s v

    fresh : last_line 0 s.directives < s.line_num + 1
    fresh = omega (arith, v.directives.within)

settle-AreDirectives :
    (source : Text) (s : ConfState) (joined : Text)
    → Inv source s
    → last_line 0 s.directives < s.pending_start
    → s.pending_start ≤ s.line_num
    → AreDirectives source s.line_num (settle (emit source s joined s.pending_start)).value
unfolding settle
settle-AreDirectives source s joined v l w = elim (emit-cases source s joined s.pending_start) [
  | inl (e, q) ↦ rw (q, settle) v.directives
  | inr (d, q, i, at) ↦
      rw (q, settle) (AreDirectives-append d v.directives i (omega arith) (omega arith))
]

finish-AreDirectives :
    (source : Text) (s : ConfState) (stop : Option (ScanError Error))
    → Inv source s
    → AreDirectives source s.line_num (finish source s stop).value
unfolding finish
finish-AreDirectives source s (some too_long) v = v.directives
finish-AreDirectives source s (some (read_error e)) v = v.directives
finish-AreDirectives source s none v = at_end s.pending v.pending
  where
    at_end :
        (p : Text)
        → Pending p (last_line 0 s.directives) s.pending_start s.line_num
        → AreDirectives source s.line_num
            (if◌then◌else◌ {A = Outcome (List ConfDirective)}
              (is_empty p || is_empty (trim_space s.pending))
              (record { value = s.directives; err = none })
              (settle (emit source s (trim_space s.pending) s.pending_start))).value
    at_end [] h = v.directives
    at_end (c ∷ p) h = elim (Bool-cases (is_empty (trim_space s.pending))) [
      | inl e ↦ rw e v.directives
      | inr e ↦ rw e (settle-AreDirectives source s (trim_space s.pending) v h.0 h.1)
    ]

run-AreDirectives :
    (source : Text) (s : ConfState) (raws : List Text) (stop : Option (ScanError Error))
    → Inv source s
    → AreDirectives source (s.line_num + length raws) (run source s raws stop).value
unfolding run
run-AreDirectives source s [] stop v =
    AreDirectives-later (finish-AreDirectives source s stop v) (omega arith)
run-AreDirectives source s (raw ∷ raws) stop v = elim (Step-cases (step source s raw)) [
  | inl (t, q) ↦
      let (w, l) = rw q at (step-Sound source s raw v) in
      rw (q, run) (AreDirectives-later (run-AreDirectives source t raws stop w) (omega (arith, l)))
  | inr (ds, e, q) ↦
      rw (q, run) (AreDirectives-later (rw q at (step-Sound source s raw v)) (omega arith))
]

-- Whatever ParseConfReader reads, with an error or without, each directive it returns carries the
-- source it was given, is made of words without white space, and has a line number; these rise
-- strictly from at least 1 to at most the number of lines read.
pub parse_conf_reader-AreDirectives :
    (r : Reader Error) (source : Text)
    → AreDirectives source (length (scan r).lines) (parse_conf_reader r source).value
unfolding parse_conf_reader
parse_conf_reader-AreDirectives r source =
    AreDirectives-later (run-AreDirectives source initial (scan r).lines (scan r).stop start)
      (omega arith)
  where
    start : Inv source initial
    start = record {
      directives = record { well_formed = tt; rises = tt; within = omega arith };
      pending = tt;
    }
