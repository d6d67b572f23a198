-- ===== src/Telemetry/Pristine.antt =====
-- What reaches the training data of gateway/telemetry/anti_poisoning.py.
use erp_security.Prelude.{
  ◌≤◌, true, ◌≡◌, refl, arith, List, [], ◌∷◌, ◌++◌, length, All, leb, ltb, ◌&&◌, Bool-cases, inl,
  inr,
}
use erp_security.Prelude.Text.{upper_equals}
use erp_security.Telemetry.{
  Event, Entry, EventTier, File, baseline_file, quarantine_file, AntiPoisoningFilter,
  classify_event, append_jsonl, enqueue, file_of, process_event, write_all, work, flush,
}

-- An event of a clean and trusted session.
pub record IsPristine (e : Event) : Type 0 where
  pub allowed : upper_equals e.decision "ALLOW" ≡ true
  pub low_risk : e.risk_score ≤ 2000
  pub no_rule : length e.fired_rules ≡ 0
  pub no_attack : e.waf_severity ≡ 0
  pub no_anomaly : e.auth_anomaly ≡ 0
  pub old_account : 7 ≤ e.user_account_age_days
  pub no_incident : e.user_incident_count ≡ 0

classify_event-IsPristine :
    (e : Event) → classify_event e ≡ EventTier.tier_1_pristine → IsPristine e
unfolding classify_event
classify_event-IsPristine e h = record {
  allowed = ground (arith, h);
  low_risk = ground (arith, h);
  no_rule = ground (arith, h);
  no_attack = ground (arith, h);
  no_anomaly = ground (arith, h);
  old_account = ground (arith, h);
  no_incident = ground (arith, h);
}

-- A record that is kept for the file of the training data is pristine.
abbrev pub Fits : File × Entry → Type 0
Fits (baseline_file, x) = IsPristine x.event
Fits (quarantine_file, x) = Unit

abbrev pub IsClean : AntiPoisoningFilter → Type 0
IsClean f = All Fits f.queue × All (λ x. IsPristine x.event) f.baseline

All-append :
    {A : Type 0} (P : A → Type 0) (xs : List A) (y : A) → All P xs → P y → All P (xs ++ (y ∷ []))
All-append P [] y h p = (p, tt)
All-append P (x ∷ xs) y (px, h) p = (px, All-append P xs y h p)

append_jsonl-IsClean :
    (file : File) (x : Entry) (f : AntiPoisoningFilter)
    → Fits (file, x)
    → IsClean f
    → IsClean (append_jsonl file x f)
append_jsonl-IsClean baseline_file x f p (q, b) =
    (q, All-append (λ x. IsPristine x.event) f.baseline x b p)
append_jsonl-IsClean quarantine_file x f p (q, b) = (q, b)

enqueue-IsClean :
    (file : File) (x : Entry) (f : AntiPoisoningFilter)
    → Fits (file, x)
    → IsClean f
    → IsClean (enqueue file x f)
unfolding enqueue
enqueue-IsClean file x f p h =
    elim (Bool-cases (ltb 0 f.max_queue_size && leb f.max_queue_size (length f.queue))) [
      | inl full ↦ rw (full, enqueue) (append_jsonl-IsClean file x f p h)
      | inr room ↦ rw (room, enqueue) (All-append Fits f.queue (file, x) h.0 p, h.1)
    ]

file_of-Fits :
    (tier : EventTier) (x : Entry)
    → (tier ≡ EventTier.tier_1_pristine → IsPristine x.event)
    → Fits (file_of tier, x)
file_of-Fits EventTier.tier_1_pristine x p = p refl
file_of-Fits EventTier.tier_2_review x p = tt
file_of-Fits EventTier.tier_3_hard_quarantine x p = tt

process_event-IsClean :
    (e : Event) (f : AntiPoisoningFilter) → IsClean f → IsClean (process_event e f).0
unfolding process_event
process_event-IsClean e f h =
    enqueue-IsClean (file_of (classify_event e)) _ f
      (file_of-Fits (classify_event e) _ (classify_event-IsPristine e)) h

write_all-IsClean :
    (qs : List (File × Entry)) (f : AntiPoisoningFilter)
    → All Fits qs
    → IsClean f
    → IsClean (write_all qs f)
unfolding write_all
write_all-IsClean [] f p h = h
write_all-IsClean ((file, x) ∷ qs) f p h =
    write_all-IsClean qs (append_jsonl file x f) p.1 (append_jsonl-IsClean file x f p.0 h)

work-IsClean : (f : AntiPoisoningFilter) → IsClean f → IsClean (work f)
unfolding work
work-IsClean f h = step f.queue h.0
  where
    step :
        (qs : List (File × Entry))
        → All Fits qs
        → IsClean (elim qs [
          | [] ↦ f
          | (file, x) ∷ rest ↦ append_jsonl file x (record f { queue = rest })
        ])
    step [] p = h
    step ((file, x) ∷ rest) p =
        append_jsonl-IsClean file x (record f { queue = rest }) p.0 (p.1, h.1)

flush-IsClean : (f : AntiPoisoningFilter) → IsClean f → IsClean (flush f)
unfolding flush
flush-IsClean f h = write_all-IsClean f.queue (record f { queue = [] }) h.0 (tt, h.1)

-- What happens to a filter: an event, a round of the worker, a flush.
pub data Step : Type 0 where
  receive : Event → Step
  write : Step
  drain : Step

unfoldable pub perform : Step → AntiPoisoningFilter → AntiPoisoningFilter
perform (receive e) f = (process_event e f).0
perform write f = work f
perform drain f = flush f

unfoldable pub perform_all : List Step → AntiPoisoningFilter → AntiPoisoningFilter
perform_all [] f = f
perform_all (s ∷ ss) f = perform_all ss (perform s f)

perform-IsClean : (s : Step) (f : AntiPoisoningFilter) → IsClean f → IsClean (perform s f)
unfolding perform
perform-IsClean (receive e) f h = process_event-IsClean e f h
perform-IsClean write f h = work-IsClean f h
perform-IsClean drain f h = flush-IsClean f h

-- Allowed is not normal: from a filter whose training data, written or waiting, is pristine, after
-- any events, rounds of the worker and flushes in any order, all of it is, so that no record of an
-- event that was not allowed, of more than 20 points, with a fired rule, with a finding of the
-- firewall or of authentication, of an account younger than a week or of one with an incident is
-- there.
pub perform_all-IsClean :
    (ss : List Step) (f : AntiPoisoningFilter) → IsClean f → IsClean (perform_all ss f)
unfolding perform_all
perform_all-IsClean [] f h = h
perform_all-IsClean (s ∷ ss) f h = perform_all-IsClean ss (perform s f) (perform-IsClean s f h)
