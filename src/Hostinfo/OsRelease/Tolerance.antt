-- ===== src/Hostinfo/OsRelease/Tolerance.antt =====
-- Lines that internal/hostinfo/osrelease.go passes over.
use copyfail_validation.Base.{List, [], ◌∷◌, ◌++◌, none, ◌≡◌, refl, Option-cases, inl, inr}
use copyfail_validation.Text.{Text}
use copyfail_validation.Hostinfo.OsRelease.{OsRelease, assignment, assign, read_lines}

-- A line that assigns nothing changes nothing, wherever it stands: one that is blank or a comment, or
-- has no valid key before a `=`, or quotes that are not balanced.
pub read_lines-tolerant :
    (o : OsRelease) (front : List Text) (raw : Text) (back : List Text)
    → assignment raw ≡ none
    → read_lines o (front ++ raw ∷ back) ≡ read_lines o (front ++ back)
unfolding read_lines
read_lines-tolerant o [] raw back h = rw (h, read_lines) refl
read_lines-tolerant o (l ∷ front) raw back h = elim (Option-cases (assignment l)) [
  | inl q ↦ rw (q, read_lines) (read_lines-tolerant o front raw back h)
  | inr ((key, value), q) ↦
      rw (q, read_lines) (read_lines-tolerant (assign o key value) front raw back h)
]
