-- ===== src/Mitigation.antt =====
-- The mitigation engine of gateway/mitigation_engine.py (class MitigationEngine), over any shared
-- store (`StateStore.Interface`) and any whitelist (`Config.is_ip_whitelisted` in the program).
-- A clock reading is a number of microseconds. A dictionary that the code stores is a record, an
-- ISO date in it the reading that it was made from; a reason text is a constructor with what
-- the text mentions. `get_status` only reports. Locks are left out: a method runs alone.
pub mod State
pub mod Apply
pub mod Evaluate
pub mod Calls
pub mod Checks
pub mod Gate
pub mod OnRecord
pub mod Quarantine
pub mod Rollback
pub mod Offline
pub mod Sharing
pub mod Suspended
mod Tests
