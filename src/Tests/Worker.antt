-- ===== src/Tests/Worker.antt =====
-- Runs of the worker's consumer and of the redaction.
use nodejs_basics.Prelude.{
  ℕ, zero, suc, All, true, false, Option, none, some, String, List, [], ◌∷◌, ◌≡◌, refl, string_key,
}
use nodejs_basics.Prelude.Texts.{Text, codes}
use nodejs_basics.Worker.{World, Decoded, fresh, run, step, handle, ensure_queue_room}
use nodejs_basics.Worker.Handled.{run-IsJustified, IsJustified, IsSent}
use nodejs_basics.Redact.{
  redact_url, mask, UrlClass, Value, string, object, no_fields, field, redact, is_secret_key,
}
use nodejs_basics.Redact.Hidden.{redact_hides, IsHidden, IsKept}

abbrev up : ℕ → World
up now = record { now = now; waiting = some 0; send_ok = true }

abbrev task : String → Option Decoded
task id = some (record { event_type = some "task.created"; contract_id = some id })

abbrev messages : ℕ → Option Decoded
messages zero = task "a"
messages (suc zero) = task "b"
messages _ = none

-- Both calls wait for the depth, and pass on it.
abbrev side_by_side : List (ℕ × World)
side_by_side =
    (0, up 0) ∷ (1, up 1) ∷ (0, up 2) ∷ (1, up 3) ∷ (0, up 4) ∷ (1, up 5) ∷ (2, up 6) ∷ []

run-IsJustified_example :
    let w = run 1 messages fresh side_by_side in
    IsJustified 1 (messages 1) w.sent (w.phase 1) × All (IsSent 1 messages w.phase) w.sent
run-IsJustified_example = run-IsJustified 1 messages side_by_side 1

-- Two jobs are sent though there is room for one.
sent_side_by_side : (run 1 messages fresh side_by_side).sent ≡ "a" ∷ "b" ∷ []
unfolding run step handle ensure_queue_room fresh
sent_side_by_side = refl

-- A class on texts that are their own passwords.
abbrev url_class : UrlClass
url_class = record {
  Url = Text;
  parse = λ t. some t;
  password = λ url. url;
  with_password = λ password url. password;
  to_string = λ url. url;
}

abbrev snapshot : Value
snapshot = object (
    field (codes "DATABASE_PASSWORD") (string (codes "hunter2"))
      (field (codes "DATABASE_URL") (string (codes "pg://app:s3cret@db")) no_fields))

url_is_masked : redact_url url_class (codes "pg://app:s3cret@db") ≡ mask
unfolding redact_url
url_is_masked = refl

password_is_secret : is_secret_key (codes "DATABASE_PASSWORD") ≡ true
unfolding is_secret_key
password_is_secret = refl

redact_hides_example :
    IsHidden url_class false (redact url_class false snapshot)
    × IsKept url_class false snapshot (redact url_class false snapshot)
redact_hides_example = redact_hides url_class (λ url again has p. cc) snapshot
