-- ===== src/Tests/Redact.antt =====
-- Runs of internal/redact.
use copyfail_validation.Base.{◌∷◌, ◌++◌, ◌==◌, ◌≡◌, refl}
use copyfail_validation.Text.{codes, equal}
use copyfail_validation.Text.Words.{is_free-Free}
use copyfail_validation.Redact.{redact, is_blank, is_separator, fold_case}
use copyfail_validation.Redact.Whole.{redact_same}

redacted_line :
    redact (codes "command: modprobe -nv algif_aead\npassword=hunter2\nresult: ok")
    ≡ codes "command: modprobe -nv algif_aead\npassword=***REDACTED***\nresult: ok"
unfolding redact
redacted_line = refl

redacted_header : redact (codes "Authorization: Bearer eyJ") ≡ codes "Authorization=***REDACTED***"
unfolding redact
redacted_header = refl

prose_unchanged :
    redact (codes "Reset your password from the portal")
    ≡ codes "Reset your password from the portal"
unfolding redact
prose_unchanged = refl

-- The blanks behind the separator may hold a line break, and then the next line is replaced.
redacted_next_line : redact (codes "password:\nresult: ok") ≡ codes "password=***REDACTED***"
unfolding redact
redacted_next_line = refl

redact_same_example :
    redact (
      codes "host a\n"
      ++ (codes "PassWord" ++ (codes " " ++ b'=' ∷ (codes "hunter2" ++ codes "\nok"))))
    ≡ redact (
        codes "host a\n" ++ (codes "PassWord" ++ (codes " " ++ b'=' ∷ (codes "x" ++ codes "\nok"))))
unfolding is_blank is_separator fold_case equal
redact_same_example =
    redact_same (codes "host a\n") (codes "PassWord") (codes " ") b'=' (codes "hunter2") (codes "x")
      (codes "\nok") refl (refl, tt) refl
      (is_free-Free (λ c. c == b'\n') (codes "hunter2") refl, refl) ((refl, tt), refl) refl
