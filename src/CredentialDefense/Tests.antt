-- ===== src/CredentialDefense/Tests.antt =====
-- Runs of the defence of gateway/credential_defense.py.
use erp_security.Prelude.{◌||◌, ◌≡◌, arith, List, [], ◌∷◌, leb, length, if◌then◌else◌}
use erp_security.Prelude.Text.{truthy}
use erp_security.Prelude.Window.{recent}
use erp_security.CredentialDefense.{CredentialDefense, check_status}
use erp_security.CredentialDefense.Lockout.{
  Event, fail, check, time_of, handle_all, failures_from, failures_with, flags_failures,
}

abbrev events : List Event
events = fail 1 "1.2.3.4" "eve" ∷ check 2 "1.2.3.4" "eve" ∷ fail 4 "1.2.3.5" "eve" ∷ []

flags_failures_example :
    (check_status 5 "1.2.3.5" "eve" (
      handle_all events
        (record { failure_threshold = 2; window = 300; ip_failures = []; user_failures = [] }))).1
    ≡ leb 2 (length (recent 300 5 (failures_from "1.2.3.5" events)))
      || leb 2 (if truthy "eve" then length (recent 300 5 (failures_with "eve" events)) else 0)
unfolding time_of
flags_failures_example =
    flags_failures 2 300 events 5 "1.2.3.5" "eve" (omega arith, (omega arith, (omega arith, tt)))

abbrev targeted : CredentialDefense
targeted = record {
  failure_threshold = 2;
  window = 300;
  ip_failures = ("1.2.3.4", 1 ∷ 2 ∷ []) ∷ [];
  user_failures = ("eve", 1 ∷ 2 ∷ []) ∷ [];
}
