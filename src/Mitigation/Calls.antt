-- ===== src/Mitigation/Calls.antt =====
-- Sequences of calls of the engine of gateway/mitigation_engine.py.
use erp_security.Prelude.{ℕ, String, Option, Bool, List, [], ◌∷◌, All}
use erp_security.Agents.{AgentAction}
use erp_security.StateStore.Interface.{SharedStore}
use erp_security.Mitigation.State.{Shared, MitigationEngine}
use erp_security.Mitigation.Apply.{apply_action, rollback_action}
use erp_security.Mitigation.Evaluate.{evaluate_request}

-- Calls of the engine, one at a time.
pub data Call : Type 0 where
  apply : ℕ → AgentAction → Call
  rollback : String → Call
  evaluate : ℕ → String → Option String → Option String → Call

module _ (st : SharedStore Shared) (is_ip_whitelisted : String → Bool) where
  unfoldable pub call : Call → MitigationEngine st → MitigationEngine st
  call (apply now a) e = (apply_action st is_ip_whitelisted now a e).0
  call (rollback action_id) e = (rollback_action st action_id e).0
  call (evaluate now client_ip p token) e = (evaluate_request st now client_ip p token e).1

  unfoldable pub run : List Call → MitigationEngine st → MitigationEngine st
  run [] e = e
  run (c ∷ cs) e = run cs (call c e)

  -- What every call keeps holds after any run.
  pub run_induction :
      {P : MitigationEngine st → Type 0} {Q : Call → Type 0}
      (keeps : (c : Call) (e : MitigationEngine st) → Q c → P e → P (call c e)) (cs : List Call)
      (e : MitigationEngine st)
      → All Q cs
      → P e
      → P (run cs e)
  unfolding run
  run_induction keeps [] e q h = h
  run_induction keeps (c ∷ cs) e q h = run_induction keeps cs (call c e) q.1 (keeps c e q.0 h)

  pub run_all :
      {P : MitigationEngine st → Type 0}
      (keeps : (c : Call) (e : MitigationEngine st) → P e → P (call c e)) (cs : List Call)
      (e : MitigationEngine st)
      → P e
      → P (run cs e)
  unfolding run
  run_all keeps [] e h = h
  run_all keeps (c ∷ cs) e h = run_all keeps cs (call c e) (keeps c e h)
