-- ===== src/Agents/Response/Lifecycle.antt =====
-- The life of an action in agents/response_agent.py, through approval, rejection and revocation.
use erp_security.Prelude.{
  ℕ, String, Option, none, some, Bool, true, false, ◌≡◌, arith, eq_iff, eq_refl, List, [], ◌∷◌,
}
use erp_security.Prelude.Dict.{get, get-put}
use erp_security.Agents.{AgentAction, ApprovalStatus}
use erp_security.Agents.Response.{
  ResponseAgent, ok, failed, value_error, approve_action, reject_action, revoke_action,
}

-- What an analyst does, each call at its clock reading.
pub data Decision : Type 0 where
  approve : String → String → ℕ → Decision
  reject : String → String → String → ℕ → Decision
  revoke : String → Option String → ℕ → Decision

pub decide : Decision → ResponseAgent → ResponseAgent
decide (approve id analyst now) r = (approve_action id analyst now r).0
decide (reject id analyst reason now) r = (reject_action id analyst reason now r).0
decide (revoke id analyst now) r = (revoke_action id analyst now r).0

pub decide_all : List Decision → ResponseAgent → ResponseAgent
decide_all [] r = r
decide_all (d ∷ ds) r = decide_all ds (decide d r)

abbrev pub status_of : Option AgentAction → Option ApprovalStatus
status_of none = none
status_of (some a) = some a.approval_status

-- A status that no decision leads out of but for a rejection.
abbrev pub is_final : ApprovalStatus → Bool
is_final ApprovalStatus.rejected = true
is_final ApprovalStatus.revoked = true
is_final _ = false

abbrev pub IsFinal : String → ResponseAgent → Type 0
IsFinal id r = elim (get r.actions_registry id) [
  | none ↦ ⊥
  | some a ↦ is_final a.approval_status ≡ true
]

decide-IsFinal :
    (d : Decision) (id : String) (r : ResponseAgent) → IsFinal id r → IsFinal id (decide d r)
unfolding decide approve_action reject_action revoke_action
decide-IsFinal (approve i analyst now) id r h = grind (arith, get-put, eq_iff i id)
decide-IsFinal (reject i analyst reason now) id r h = grind (arith, get-put, eq_iff i id)
decide-IsFinal (revoke i analyst now) id r h = grind (arith, get-put, eq_iff i id)

decide_all-IsFinal :
    (ds : List Decision) (id : String) (r : ResponseAgent)
    → IsFinal id r
    → IsFinal id (decide_all ds r)
unfolding decide_all
decide_all-IsFinal [] id r h = h
decide_all-IsFinal (d ∷ ds) id r h = decide_all-IsFinal ds id (decide d r) (decide-IsFinal d id r h)

final_refused :
    (id : String) (analyst : String) (by : Option String) (now : ℕ) (r : ResponseAgent)
    → IsFinal id r
    → ((approve_action id analyst now r).1 ≡ failed value_error)
      × ((revoke_action id by now r).1 ≡ failed value_error)
unfolding approve_action revoke_action
final_refused id analyst by now r h = ground arith

-- A rejected or revoked action is out of use for good: after any decisions of analysts on any
-- actions it can neither be approved nor revoked.
pub final_for_good :
    (ds : List Decision) (id analyst : String) (by : Option String) (now : ℕ) (r : ResponseAgent)
    → IsFinal id r
    → let r' = decide_all ds r in
      ((approve_action id analyst now r').1 ≡ failed value_error)
      × ((revoke_action id by now r').1 ≡ failed value_error)
final_for_good ds id analyst by now r h =
    final_refused id analyst by now (decide_all ds r) (decide_all-IsFinal ds id r h)

reject-strands :
    (id analyst reason : String) (now : ℕ) (r : ResponseAgent) (a : AgentAction)
    → get r.actions_registry id ≡ some a
    → let r' = (reject_action id analyst reason now r).0 in
      IsFinal id r'
      × (r'.active_rate_limits ≡ r.active_rate_limits)
      × (r'.active_quarantined_ips ≡ r.active_quarantined_ips)
      × (r'.active_challenges ≡ r.active_challenges)
unfolding reject_action
reject-strands id analyst reason now r a known = grind (arith, get-put, eq_refl)

-- The rejection of an action that was already carried out leaves its containment in force and
-- takes the way to lift it away: no later decision makes its revocation succeed.
pub reject_strands_containment :
    (id analyst reason : String) (now later : ℕ) (by : Option String) (ds : List Decision)
    (r : ResponseAgent) (a : AgentAction)
    → get r.actions_registry id ≡ some a
    → a.approval_status ≡ ApprovalStatus.executed
    → let r' = (reject_action id analyst reason now r).0 in
      (r'.active_rate_limits ≡ r.active_rate_limits)
      × (r'.active_quarantined_ips ≡ r.active_quarantined_ips)
      × (r'.active_challenges ≡ r.active_challenges)
      × ((revoke_action id by later (decide_all ds r')).1 ≡ failed value_error)
reject_strands_containment id analyst reason now later by ds r a known ran =
    let (final, limits, quarantined, challenges) = reject-strands id analyst reason now r a known in
    (
      limits,
      quarantined,
      challenges,
      (final_for_good ds id analyst by later (reject_action id analyst reason now r).0 final).1,
    )

-- An approval is needed once and suffices once: a pending action is approved and executed in the
-- name of the analyst, and its second approval is refused.
pub approves_once :
    (id analyst other : String) (now later : ℕ) (r : ResponseAgent) (a : AgentAction)
    → get r.actions_registry id ≡ some a
    → a.approval_status ≡ ApprovalStatus.pending_human_approval
    → let (r', result) = approve_action id analyst now r in
      (result
        ≡ ok (record a {
          approved_by = some analyst;
          approved_at = some now;
          approval_status = ApprovalStatus.executed;
          executed_at = some now;
        }))
      × ((approve_action id other later r').1 ≡ failed value_error)
unfolding approve_action
approves_once id analyst other now later r a known pending =
    (ground arith, grind (arith, get-put, eq_refl))
