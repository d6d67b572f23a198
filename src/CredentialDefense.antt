-- ===== src/CredentialDefense.antt =====
-- The defence against guessed credentials of gateway/credential_defense.py (class
-- CredentialDefense). A clock reading and a window are numbers of microseconds; a reason text is a
-- constructor with what the text mentions. Locks are left out: a method runs alone.
pub mod Lockout
mod Tests
use erp_security.Prelude.{
  ℕ, ◌+◌, max, String, Bool, true, false, not, ◌&&◌, leb, if◌then◌else◌, List, [], ◌∷◌, ◌++◌,
  get_or, length,
}
use erp_security.Prelude.Dict.{Dict, get, put, pop}
use erp_security.Prelude.Text.{truthy}
use erp_security.Prelude.Window.{recent}

pub record CredentialDefense : Type 0 where
  pub failure_threshold : ℕ
  pub window : ℕ
  pub ip_failures : Dict (List ℕ)
  pub user_failures : Dict (List ℕ)

pub data Reason : Type 0 where
  brute_force : ℕ → String → Reason
  account_targeted : ℕ → String → Reason

-- `d[key]` on a `defaultdict(list)`.
abbrev pub failures : Dict (List ℕ) → String → List ℕ
failures d key = get_or (get d key) []

unfoldable pub record_failure : ℕ → String → String → CredentialDefense → CredentialDefense
record_failure now client_ip username c = record c {
  ip_failures = put c.ip_failures client_ip (failures c.ip_failures client_ip ++ (now ∷ []));
  user_failures =
      if truthy username
      then put c.user_failures username (failures c.user_failures username ++ (now ∷ []))
      else c.user_failures;
}

-- The readings of a user in the window; an empty name has none.
unfoldable pub user_times : ℕ → String → CredentialDefense → List ℕ
unfolding recent
user_times now username c =
    if truthy username then recent c.window now (failures c.user_failures username) else []

unfoldable pub check_status :
    ℕ → String → String → CredentialDefense → CredentialDefense × Bool × ℕ × List Reason
unfolding recent user_times
check_status now client_ip username c =
    let ips = recent c.window now (failures c.ip_failures client_ip) in
    let users = user_times now username c in
    let by_ip = leb c.failure_threshold (length ips) in
    let by_user = leb c.failure_threshold (length users) in
    let threat = if by_ip then max 0 95 else 0 in
    let threat' = if by_user then max threat 95 else threat in
    (
      record c {
        ip_failures = put c.ip_failures client_ip ips;
        user_failures =
            if truthy username then put c.user_failures username users else c.user_failures;
      },
      leb 90 threat',
      threat',
      (if by_ip then brute_force (length ips) client_ip ∷ [] else [])
          ++ (if by_user then account_targeted (length users) username ∷ [] else []),
    )

unfoldable pub reset : String → String → CredentialDefense → CredentialDefense
reset client_ip username c =
    if not (truthy client_ip) && not (truthy username)
    then record c { ip_failures = []; user_failures = [] }
    else record c {
      ip_failures = if truthy client_ip then pop c.ip_failures client_ip else c.ip_failures;
      user_failures = if truthy username then pop c.user_failures username else c.user_failures;
    }
