-- ===== src/Mitigation/Tests.antt =====
-- Runs of the mitigation engine of gateway/mitigation_engine.py over the in-memory store.
use erp_security.Prelude.{
  ℕ, ◌+◌, ◌*◌, String, ◌==◌, none, some, Bool, true, false, ◌≡◌, ◌≢◌, refl, arith, [], ◌∷◌,
}
use erp_security.Prelude.Dict.{get}
use erp_security.Prelude.Text.{clean_token}
use erp_security.Agents.{AgentAction, ActionType, ApprovalStatus}
use erp_security.StateStore.{second, get_hash_entry, is_member}
use erp_security.StateStore.Memory.{memory_store}
use erp_security.StateStore.Interface.{SharedStore}
use erp_security.Mitigation.State.{Shared, MitigationEngine, init}
use erp_security.Mitigation.Apply.{apply_action, route, rollback_action}
use erp_security.Mitigation.Calls.{apply, evaluate, run}
use erp_security.Mitigation.Evaluate.{evaluate_request}
use erp_security.Mitigation.Gate.{no_suspension_without_approval}
use erp_security.Mitigation.OnRecord.{AllQuarantines}
use erp_security.Mitigation.Quarantine.{quarantine_ends}
use erp_security.Mitigation.Rollback.{SameView, IsFresh, rollback_lifts_newer}
use erp_security.Mitigation.Offline.{rollback-apply_offline}
use erp_security.StateStore.Distributed.{Redis}
use erp_security.StateStore.Distributed.Offline.{offline_store}

clean_token_nested : clean_token " Bearer Bearer abc Bearer  d " ≡ "abc  d"
unfolding clean_token
clean_token_nested = refl

abbrev st : SharedStore Shared
st = memory_store Shared

abbrev idle : MitigationEngine st
unfolding memory_store
idle = init st (record { nonces = []; sets = []; hashes = [] })

abbrev action : String → ActionType → ApprovalStatus → String → AgentAction
action id kind status target = record {
  action_type = kind;
  target_entity = target;
  justification = "test";
  action_id = id;
  reversible = true;
  requires_human_approval = false;
  approval_status = status;
  created_at = 0;
  approved_by = none;
  approved_at = none;
  executed_at = none;
  revoked_at = none;
  duration_seconds = some 900;
  parameters = [];
}

abbrev blocked_address : AgentAction
blocked_address =
    action "act-1" ActionType.quarantine_ip_temp ApprovalStatus.auto_approved "203.0.113.7"

abbrev nowhere : String → Bool
nowhere ip = ip == "127.0.0.1"

-- Nothing is on record in an engine that is idle.
idle-quiet :
    ((k : String) → get idle.suspended_accounts k ≡ none)
    × ((h k : String) → st.get_hash_entry h k idle.state_store ≡ none)
    × ((k : String) → get idle.quarantined_ips k ≡ none)
    × ((n k : String) → st.is_member n k idle.state_store ≡ false)
unfolding get init memory_store get_hash_entry is_member
idle-quiet = ((λ k. refl), (λ h k. refl), (λ k. refl), (λ n k. refl))

no_suspension_without_approval_example :
    (evaluate_request st 20 "203.0.113.7" (some "eve") none (
      run st nowhere
        (apply 10
            (action "act-2" ActionType.suspend_account ApprovalStatus.pending_human_approval "eve")
          ∷ evaluate 11 "203.0.113.8" (some "eve") none
          ∷ [])
        idle)).0.action
    ≢ some ActionType.suspend_account
unfolding erp_security.Mitigation.Gate.carries_approval
no_suspension_without_approval_example =
    no_suspension_without_approval st nowhere "eve"
      (apply 10
          (action "act-2" ActionType.suspend_account ApprovalStatus.pending_human_approval "eve")
        ∷ evaluate 11 "203.0.113.8" (some "eve") none
        ∷ [])
      idle 20 "203.0.113.7" none refl
      (record { here = idle-quiet.0 "eve"; shared = idle-quiet.1 "suspended_accounts" "eve" })
      (refl, (refl, tt))

idle-AllQuarantines : (ok : String → ℕ → Bool) → AllQuarantines st ok idle
idle-AllQuarantines ok = record {
  here = λ k. rw (idle-quiet.2 k) tt;
  shared = λ k. rw (idle-quiet.1 "quarantined_ips" k) tt;
}

quarantine_ends_example :
    (evaluate_request st
      (10 + 3600 * second + 1)
      "203.0.113.7"
      none
      none
      (run st nowhere (apply 10 blocked_address ∷ []) idle)).0.action
    ≢ some ActionType.quarantine_ip_temp
quarantine_ends_example =
    quarantine_ends st nowhere 10 (apply 10 blocked_address ∷ []) idle (10 + 3600 * second + 1)
      "203.0.113.7" none none (idle-AllQuarantines _) (omega arith, tt) (omega arith)

-- A Redis server that cannot be connected to, and an engine over the store without it.
abbrev away : Redis Shared
away = record {
  Server = Unit {0};
  connect = λ now s. (false, s);
  set_nx = λ key ttl s. (none, s);
  sadd = λ name m s. (none, s);
  srem = λ name m s. (none, s);
  sismember = λ name m s. (none, s);
  smembers = λ name s. (none, s);
  hset = λ name key value s. (none, s);
  expire = λ name ttl s. (none, s);
  hget = λ name key s. (none, s);
  hgetall = λ name s. (none, s);
  hdel = λ name key s. (none, s);
  keys = λ pattern s. (none, s);
  delete = λ names s. (none, s);
  dumps = λ v. "";
  loads = λ text. none;
}

abbrev offline : SharedStore Shared
offline = offline_store away (λ now server. refl) 9

abbrev alone : MitigationEngine offline
unfolding offline_store
alone = init offline (record {
  store = record {
    fallback = record { nonces = []; sets = []; hashes = [] };
    redis_client = false;
    redis_available = false;
    last_check = 0;
    server = tt;
  };
  unavailable = refl;
})

alone-IsFresh : IsFresh offline blocked_address alone
unfolding alone init get erp_security.StateStore.Distributed.get_hash_entry
    erp_security.StateStore.Distributed.is_member
alone-IsFresh = record {
  quarantined = refl;
  tokens = refl;
  principals = refl;
  mfa = refl;
  limits = refl;
  suspended = refl;
  registry = refl;
  shared_quarantine = refl;
  shared_principal = refl;
  shared_suspension = refl;
  shared_token = refl;
}

rollback-apply_offline_example :
    let (e', undone) =
      rollback_action offline "act-1" (apply_action offline nowhere 10 blocked_address alone).0 in
    (undone ≡ true) × SameView offline e' alone
unfolding apply_action route
rollback-apply_offline_example =
    rollback-apply_offline away (λ now server. refl) 9 nowhere 10 blocked_address alone
      alone-IsFresh refl

rollback_lifts_newer_example :
    let newer = record blocked_address { action_id = "act-3" } in
    let e₁ = (apply_action st nowhere 10 blocked_address idle).0 in
    let e₂ = (apply_action st nowhere 20 newer e₁).0 in
    let e₃ = (rollback_action st "act-1" e₂).0 in
    (get e₃.quarantined_ips "203.0.113.7" ≡ none)
    × (st.get_hash_entry "quarantined_ips" "203.0.113.7" e₃.state_store ≡ none)
    × (get e₃.action_registry "act-3" ≡ some (ActionType.quarantine_ip_temp, "203.0.113.7"))
rollback_lifts_newer_example =
    rollback_lifts_newer st nowhere 10 20 blocked_address
      (record blocked_address { action_id = "act-3" }) idle refl refl refl refl refl

abbrev revoked_user : AgentAction
revoked_user = action "act-4" ActionType.revoke_session ApprovalStatus.auto_approved "eve"
