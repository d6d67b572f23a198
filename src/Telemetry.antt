-- ===== src/Telemetry.antt =====
-- The filter against poisoned training data of gateway/telemetry/anti_poisoning.py (class
-- AntiPoisoningFilter). A score is a number of hundredths of a point. The queue is the list of what
-- waits to be written, and a file the list of its records, oldest first; a step of the worker writes
-- one. A write that the file system refuses is logged and lost in the code; here writes succeed. The
-- texts of `quarantine_reasons` are left out.
pub mod Pristine
pub mod Conservation
mod Tests
use erp_security.Prelude.{
  ℕ, ◌+◌, String, Bool, true, false, ◌&&◌, ◌||◌, ltb, leb, eqb, if◌then◌else◌, List, [], ◌∷◌, ◌++◌,
  length,
}
use erp_security.Prelude.Text.{upper_equals}

pub data EventTier : Type 0 where
  tier_1_pristine tier_2_review tier_3_hard_quarantine : EventTier

-- What the filter reads of an event, with the defaults of the code put in.
pub record Event : Type 0 where
  pub decision : String
  pub risk_score : ℕ
  pub fired_rules : List String
  pub user_account_age_days : ℕ
  pub user_incident_count : ℕ
  pub waf_severity : ℕ
  pub auth_anomaly : ℕ

-- An event with what `process_event` notes on it.
pub record Entry : Type 0 where
  pub event : Event
  pub tier : EventTier
  pub quarantined : Bool

pub data File : Type 0 where
  baseline_file quarantine_file : File

pub record AntiPoisoningFilter : Type 0 where
  pub max_queue_size : ℕ
  pub queue : List (File × Entry)
  pub baseline : List Entry
  pub quarantine : List Entry

unfoldable pub classify_event : Event → EventTier
classify_event e =
    if upper_equals e.decision "BLOCK"
      || ltb 0 e.waf_severity
      || ltb 0 e.auth_anomaly
      || ltb 5000 e.risk_score
    then EventTier.tier_3_hard_quarantine
    else if ltb e.user_account_age_days 7 || ltb 0 e.user_incident_count
    then EventTier.tier_2_review
    else if upper_equals e.decision "LIMIT"
        || (ltb 2000 e.risk_score && leb e.risk_score 5000)
        || ltb 0 (length e.fired_rules)
    then EventTier.tier_2_review
    else if upper_equals e.decision "ALLOW" && leb e.risk_score 2000 && eqb (length e.fired_rules) 0
    then EventTier.tier_1_pristine
    else EventTier.tier_3_hard_quarantine

-- `_append_jsonl`.
abbrev pub append_jsonl : File → Entry → AntiPoisoningFilter → AntiPoisoningFilter
append_jsonl baseline_file x f = record f { baseline = f.baseline ++ (x ∷ []) }
append_jsonl quarantine_file x f = record f { quarantine = f.quarantine ++ (x ∷ []) }

-- `_enqueue`: a queue of size 0 has no limit, and what does not fit is written at once.
unfoldable pub enqueue : File → Entry → AntiPoisoningFilter → AntiPoisoningFilter
enqueue file x f =
    if ltb 0 f.max_queue_size && leb f.max_queue_size (length f.queue)
    then append_jsonl file x f
    else record f { queue = f.queue ++ ((file, x) ∷ []) }

abbrev pub file_of : EventTier → File
file_of EventTier.tier_1_pristine = baseline_file
file_of _ = quarantine_file

abbrev is_quarantined : EventTier → Bool
is_quarantined EventTier.tier_1_pristine = false
is_quarantined _ = true

unfoldable pub process_event : Event → AntiPoisoningFilter → AntiPoisoningFilter × EventTier × Bool
unfolding enqueue classify_event
process_event e f =
    let tier = classify_event e in
    (
      enqueue (file_of tier) (record { event = e; tier = tier; quarantined = is_quarantined tier })
          f,
      tier,
      is_quarantined tier,
    )

-- The records of a queue are written in turn.
unfoldable pub write_all : List (File × Entry) → AntiPoisoningFilter → AntiPoisoningFilter
write_all [] f = f
write_all ((file, x) ∷ rest) f = write_all rest (append_jsonl file x f)

-- One round of `_process_queue`.
unfoldable pub work : AntiPoisoningFilter → AntiPoisoningFilter
work f = elim f.queue [
  | [] ↦ f
  | (file, x) ∷ rest ↦ append_jsonl file x (record f { queue = rest })
]

unfoldable pub flush : AntiPoisoningFilter → AntiPoisoningFilter
unfolding write_all
flush f = write_all f.queue (record f { queue = [] })
