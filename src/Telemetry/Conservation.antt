-- ===== src/Telemetry/Conservation.antt =====
-- No event is lost by the filter of gateway/telemetry/anti_poisoning.py while its files can be
-- written.
use erp_security.Prelude.{ℕ, suc, ◌+◌, ◌≡◌, ◌∙◌, refl, arith, List, [], ◌∷◌, length, length-append}
use erp_security.Telemetry.{
  Entry, File, baseline_file, quarantine_file, AntiPoisoningFilter, classify_event, append_jsonl,
  enqueue, file_of, process_event, write_all, work, flush,
}
use erp_security.Telemetry.Pristine.{Step, receive, write, drain, perform, perform_all}

-- The records written or waiting.
abbrev pub held : AntiPoisoningFilter → ℕ
held f = length f.queue + (length f.baseline + length f.quarantine)

-- The events among the steps.
abbrev pub received : List Step → ℕ
received [] = 0
received (receive e ∷ ss) = suc (received ss)
received (write ∷ ss) = received ss
received (drain ∷ ss) = received ss

held-append_jsonl :
    (file : File) (x : Entry) (f : AntiPoisoningFilter)
    → held (append_jsonl file x f) ≡ suc (held f)
held-append_jsonl baseline_file x f = omega (arith, length-append f.baseline (x ∷ []))
held-append_jsonl quarantine_file x f = omega (arith, length-append f.quarantine (x ∷ []))

held-enqueue :
    (file : File) (x : Entry) (f : AntiPoisoningFilter) → held (enqueue file x f) ≡ suc (held f)
unfolding enqueue
held-enqueue file x f =
    ground (arith, held-append_jsonl file x f, length-append f.queue ((file, x) ∷ []))

held-write_all :
    (qs : List (File × Entry)) (f : AntiPoisoningFilter)
    → held (write_all qs f) ≡ length qs + held f
unfolding write_all
held-write_all [] f = omega arith
held-write_all ((file, x) ∷ qs) f =
    omega (arith, held-write_all qs (append_jsonl file x f), held-append_jsonl file x f)

held-work : (f : AntiPoisoningFilter) → held (work f) ≡ held f
unfolding work
held-work f = step f.queue refl
  where
    step :
        (qs : List (File × Entry))
        → f.queue ≡ qs
        → held (elim qs [
          | [] ↦ f
          | (file, x) ∷ rest ↦ append_jsonl file x (record f { queue = rest })
        ])
          ≡ held f
    step [] e = refl
    step ((file, x) ∷ rest) e =
        held-append_jsonl file x (record f { queue = rest }) ∙ ground (arith, e)

held-perform :
    (s : Step) (f : AntiPoisoningFilter) → held (perform s f) ≡ received (s ∷ []) + held f
unfolding perform process_event flush
held-perform (receive e) f = held-enqueue (file_of (classify_event e)) _ f ∙ omega arith
held-perform write f = held-work f ∙ omega arith
held-perform drain f = held-write_all f.queue (record f { queue = [] }) ∙ omega arith

-- Nothing is lost: after any events, rounds of the worker and flushes in any order, the records
-- written or waiting are those that there were at first and one more for each event.
pub held-perform_all :
    (ss : List Step) (f : AntiPoisoningFilter) → held (perform_all ss f) ≡ received ss + held f
unfolding perform_all
held-perform_all [] f = omega arith
held-perform_all (s ∷ ss) f = held-perform_all ss (perform s f) ∙ count s
  where
    count : (s : Step) → received ss + held (perform s f) ≡ received (s ∷ ss) + held f
    count (receive e) = omega (arith, held-perform (receive e) f)
    count write = omega (arith, held-perform write f)
    count drain = omega (arith, held-perform drain f)
