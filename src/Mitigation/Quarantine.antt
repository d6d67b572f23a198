-- ===== src/Mitigation/Quarantine.antt =====
-- The limits of an automated quarantine in gateway/mitigation_engine.py: protected addresses and
-- the cap of one hour.
use erp_security.Prelude.{
  ℕ, ◌+◌, ◌*◌, ◌≤◌, ◌<◌, String, ◌≡◌, ◌≢◌, Option, none, some, Bool, true, arith, List, All, leb,
  not,
}
use erp_security.Prelude.Text.{truthy?}
use erp_security.Agents.{AgentAction, ActionType}
use erp_security.StateStore.{second}
use erp_security.StateStore.Interface.{SharedStore}
use erp_security.Mitigation.State.{Shared, MitigationEngine}
use erp_security.Mitigation.Apply.{duration}
use erp_security.Mitigation.OnRecord.{
  AllQuarantines, quarantine_of-AllQuarantines, Fits, call-AllQuarantines, not_quarantined,
}
use erp_security.Mitigation.Calls.{Call, apply, rollback, evaluate, run, run_induction, run_all}
use erp_security.Mitigation.Evaluate.{
  evaluate_request, check_quarantine, local_quarantine, shared_quarantine, quarantine_of,
}

-- A quarantine never lasts longer than an hour.
pub duration-le :
    (a : AgentAction) → a.action_type ≡ ActionType.quarantine_ip_temp → duration a ≤ 3600
unfolding duration
duration-le a h = ground arith

-- Calls whose actions are applied at the given time or before.
abbrev pub AppliedBy : ℕ → Call → Type 0
AppliedBy t (apply now a) = now ≤ t
AppliedBy t (rollback action_id) = Unit {0}
AppliedBy t (evaluate now client_ip q token) = Unit {0}

-- Every quarantine on record ends at the limit or before.
abbrev pub EndsBy : (st : SharedStore Shared) → ℕ → MitigationEngine st → Type 0
EndsBy st limit = AllQuarantines st (λ k until. leb until limit)

check_quarantine-late :
    (st : SharedStore Shared) (limit now : ℕ) (ip : String) (q : Option String)
    (e : MitigationEngine st)
    → limit < now
    → EndsBy st limit e
    → (check_quarantine st now ip q e).0 ≡ none
unfolding check_quarantine
check_quarantine-late st limit now ip q e late h =
    ground (arith, quarantine_of-AllQuarantines st (λ k until. leb until limit) ip q e h)

Fits-AppliedBy :
    (st : SharedStore Shared) (whitelisted : String → Bool) (t : ℕ) (c : Call)
    → AppliedBy t c
    → Fits st (λ k until. leb until (t + 3600 * second)) whitelisted c
Fits-AppliedBy st whitelisted t (apply now a) h = λ q free. ground (arith, duration-le a q)
Fits-AppliedBy st whitelisted t (rollback action_id) h = tt
Fits-AppliedBy st whitelisted t (evaluate now client_ip q token) h = tt

-- An automated quarantine lasts an hour at most: from an engine in which no quarantine outlasts
-- the hour after time t, and after any calls that apply their actions by t, a request more than
-- an hour after t is not answered as quarantined, whatever durations the actions asked for.
pub quarantine_ends :
    (st : SharedStore Shared) (whitelisted : String → Bool) (t : ℕ) (cs : List Call)
    (e : MitigationEngine st) (now : ℕ) (ip : String) (q token : Option String)
    → EndsBy st (t + 3600 * second) e
    → All (AppliedBy t) cs
    → t + 3600 * second < now
    → (evaluate_request st now ip q token (run st whitelisted cs e)).0.action
      ≢ some ActionType.quarantine_ip_temp
quarantine_ends st whitelisted t cs e now ip q token ends h late =
    let ok : String → ℕ → Bool = λ k until. leb until (t + 3600 * second) in
    not_quarantined st ok now ip q token (run st whitelisted cs e)
      (λ e p. check_quarantine-late st (t + 3600 * second) now ip (truthy? q) e late p)
      (run_induction st whitelisted
        (λ c e fits.
          call-AllQuarantines st ok whitelisted c e (Fits-AppliedBy st whitelisted t c fits))
        cs e h ends)

-- Every quarantine on record is of a target that is not protected.
abbrev pub SparesWhitelist :
    (st : SharedStore Shared) → (String → Bool) → MitigationEngine st → Type 0
SparesWhitelist st whitelisted = AllQuarantines st (λ k until. not (whitelisted k))

check_quarantine-whitelisted :
    (st : SharedStore Shared) (whitelisted : String → Bool) (now : ℕ) (ip : String)
    (e : MitigationEngine st)
    → whitelisted ip ≡ true
    → SparesWhitelist st whitelisted e
    → (check_quarantine st now ip none e).0 ≡ none
unfolding check_quarantine quarantine_of local_quarantine shared_quarantine
check_quarantine-whitelisted st whitelisted now ip e w h = ground (arith, h.here ip, h.shared ip)

Fits-whitelisted :
    (st : SharedStore Shared) (whitelisted : String → Bool) (c : Call)
    → Fits st (λ k until. not (whitelisted k)) whitelisted c
Fits-whitelisted st whitelisted (apply now a) = λ q free. ground arith
Fits-whitelisted st whitelisted (rollback action_id) = tt
Fits-whitelisted st whitelisted (evaluate now client_ip q token) = tt

-- A protected address is never quarantined: from an engine in which no quarantine on record is of
-- a whitelisted target, after any calls, a request from a whitelisted address without a principal
-- is not answered as quarantined.
pub whitelisted_not_quarantined :
    (st : SharedStore Shared) (whitelisted : String → Bool) (cs : List Call)
    (e : MitigationEngine st) (now : ℕ) (ip : String) (token : Option String)
    → SparesWhitelist st whitelisted e
    → whitelisted ip ≡ true
    → (evaluate_request st now ip none token (run st whitelisted cs e)).0.action
      ≢ some ActionType.quarantine_ip_temp
whitelisted_not_quarantined st whitelisted cs e now ip token spares w =
    let ok : String → ℕ → Bool = λ k until. not (whitelisted k) in
    not_quarantined st ok now ip none token (run st whitelisted cs e)
      (λ e p. check_quarantine-whitelisted st whitelisted now ip e w p)
      (run_all st whitelisted
        (λ c e. call-AllQuarantines st ok whitelisted c e (Fits-whitelisted st whitelisted c)) cs e
        spares)
