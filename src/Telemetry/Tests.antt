-- ===== src/Telemetry/Tests.antt =====
-- Runs of the filter of gateway/telemetry/anti_poisoning.py.
use erp_security.Prelude.{◌≡◌, refl, List, [], ◌∷◌}
use erp_security.Prelude.Text.{upper_equals}
use erp_security.Telemetry.{Event, EventTier, AntiPoisoningFilter, classify_event}
use erp_security.Telemetry.Pristine.{
  IsClean, Step, receive, write, drain, perform_all, perform_all-IsClean,
}

abbrev clean : Event
clean = record {
  decision = "allow";
  risk_score = 1500;
  fired_rules = [];
  user_account_age_days = 30;
  user_incident_count = 0;
  waf_severity = 0;
  auth_anomaly = 0;
}

clean_tier : classify_event clean ≡ EventTier.tier_1_pristine
unfolding classify_event upper_equals
clean_tier = refl

abbrev idle : AntiPoisoningFilter
idle = record { max_queue_size = 1; queue = []; baseline = []; quarantine = [] }

abbrev steps : List Step
steps =
    receive clean
    ∷ receive (record clean { fired_rules = "R006" ∷ [] })
    ∷ write
    ∷ receive (record clean { decision = "BLOCK" })
    ∷ drain
    ∷ []

perform_all-IsClean_example : IsClean (perform_all steps idle)
perform_all-IsClean_example = perform_all-IsClean steps idle (tt, tt)
