-- ===== src/CredentialDefense/Lockout.antt =====
-- When gateway/credential_defense.py flags an attempt to log in.
use mathlib.Core.List.{append_assoc, append-nil}
use erp_security.Prelude.{
  ℕ, ◌≤◌, String, ◌==◌, true, ◌||◌, ◌≡◌, eq_iff, arith, refl, ◌∙◌, List, [], ◌∷◌, ◌++◌, leb,
  if◌then◌else◌, length, All,
}
use erp_security.Prelude.Dict.{get-put, get-empty}
use erp_security.Prelude.Text.{truthy}
use erp_security.Prelude.Window.{recent, recent-recent, recent-append}
use erp_security.CredentialDefense.{
  CredentialDefense, failures, record_failure, user_times, check_status,
}

-- A failed attempt to log in or a check of the status, at its clock reading.
pub data Event : Type 0 where
  fail check : ℕ → String → String → Event

unfoldable pub time_of : Event → ℕ
time_of (fail now ip user) = now
time_of (check now ip user) = now

unfoldable pub handle : Event → CredentialDefense → CredentialDefense
handle (fail now ip user) c = record_failure now ip user c
handle (check now ip user) c = (check_status now ip user c).0

unfoldable pub handle_all : List Event → CredentialDefense → CredentialDefense
handle_all [] c = c
handle_all (e ∷ es) c = handle_all es (handle e c)

-- The readings of the failures from an address, and of those with a name.
unfoldable pub failures_from : String → List Event → List ℕ
failures_from ip [] = []
failures_from ip (fail now i user ∷ es) =
    let rest = failures_from ip es in if i == ip then now ∷ rest else rest
failures_from ip (check now i user ∷ es) = failures_from ip es

unfoldable pub failures_with : String → List Event → List ℕ
failures_with user [] = []
failures_with user (fail now ip u ∷ es) =
    let rest = failures_with user es in if u == user then now ∷ rest else rest
failures_with user (check now ip u ∷ es) = failures_with user es

-- What a later window sees of a list that was purged, and of one that grew by a reading.
recent-cons :
    (window now t : ℕ) (ts us : List ℕ)
    → recent window now ((ts ++ (t ∷ [])) ++ us) ≡ recent window now (ts ++ (t ∷ us))
recent-cons window now t ts us = rw (append_assoc ts (t ∷ []) us) refl

recent-purge :
    (window t now : ℕ) (ts us : List ℕ)
    → t ≤ now
    → recent window now (recent window t ts ++ us) ≡ recent window now (ts ++ us)
recent-purge window t now ts us h =
    rw
      (
        recent-append window now (recent window t ts) us,
        recent-append window now ts us,
        recent-recent window t now ts h,
      )
      refl

handle-window : (e : Event) (c : CredentialDefense) → (handle e c).window ≡ c.window
unfolding handle record_failure check_status
handle-window (fail now ip user) c = refl
handle-window (check now ip user) c = refl

handle-threshold :
    (e : Event) (c : CredentialDefense) → (handle e c).failure_threshold ≡ c.failure_threshold
unfolding handle record_failure check_status
handle-threshold (fail now ip user) c = refl
handle-threshold (check now ip user) c = refl

handle_all-threshold :
    (es : List Event) (c : CredentialDefense)
    → ((handle_all es c).failure_threshold ≡ c.failure_threshold)
      × ((handle_all es c).window ≡ c.window)
unfolding handle_all
handle_all-threshold [] c = (refl, refl)
handle_all-threshold (e ∷ es) c =
    let (t, w) = handle_all-threshold es (handle e c) in
    (t ∙ handle-threshold e c, w ∙ handle-window e c)

-- One event, as a later window sees the failures from an address.
handle-ip :
    (e : Event) (ip : String) (later : ℕ) (us : List ℕ) (c : CredentialDefense)
    → time_of e ≤ later
    → recent c.window later (failures (handle e c).ip_failures ip ++ us)
      ≡ recent c.window later (failures c.ip_failures ip ++ (failures_from ip (e ∷ []) ++ us))
unfolding handle record_failure check_status failures_from time_of
handle-ip (fail now i user) ip later us c past = ground (
  arith,
  get-put c.ip_failures i ip (failures c.ip_failures i ++ (now ∷ [])),
  recent-cons c.window later now (failures c.ip_failures i) us,
  eq_iff i ip,
)
handle-ip (check now i user) ip later us c past = ground (
  arith,
  get-put c.ip_failures i ip (recent c.window now (failures c.ip_failures i)),
  recent-purge c.window now later (failures c.ip_failures i) us past,
  eq_iff i ip,
)

handle-user :
    (e : Event) (user : String) (later : ℕ) (us : List ℕ) (c : CredentialDefense)
    → truthy user ≡ true
    → time_of e ≤ later
    → recent c.window later (failures (handle e c).user_failures user ++ us)
      ≡ recent c.window later (failures c.user_failures user ++ (failures_with user (e ∷ []) ++ us))
unfolding handle record_failure check_status failures_with time_of user_times
handle-user (fail now ip u) user later us c named past = ground (
  arith,
  get-put c.user_failures u user (failures c.user_failures u ++ (now ∷ [])),
  recent-cons c.window later now (failures c.user_failures u) us,
  eq_iff u user,
)
handle-user (check now ip u) user later us c named past = ground (
  arith,
  get-put c.user_failures u user (recent c.window now (failures c.user_failures u)),
  recent-purge c.window now later (failures c.user_failures u) us past,
  eq_iff u user,
)

failures_from-cons :
    (e : Event) (ip : String) (es : List Event)
    → failures_from ip (e ∷ es) ≡ failures_from ip (e ∷ []) ++ failures_from ip es
unfolding failures_from
failures_from-cons (fail now i user) ip es = ground arith
failures_from-cons (check now i user) ip es = refl

failures_with-cons :
    (e : Event) (user : String) (es : List Event)
    → failures_with user (e ∷ es) ≡ failures_with user (e ∷ []) ++ failures_with user es
unfolding failures_with
failures_with-cons (fail now ip u) user es = ground arith
failures_with-cons (check now ip u) user es = refl

handle_all-ip :
    (es : List Event) (ip : String) (later : ℕ) (c : CredentialDefense)
    → All (λ e. time_of e ≤ later) es
    → recent c.window later (failures (handle_all es c).ip_failures ip)
      ≡ recent c.window later (failures c.ip_failures ip ++ failures_from ip es)
unfolding handle_all
handle_all-ip [] ip later c past =
    unfold failures_from in rw (append-nil (failures c.ip_failures ip)) refl
handle_all-ip (e ∷ es) ip later c past = ground (
  arith,
  failures_from-cons e ip es,
  handle-window e c,
  handle_all-ip es ip later (handle e c) past.1,
  handle-ip e ip later (failures_from ip es) c past.0,
)

handle_all-user :
    (es : List Event) (user : String) (later : ℕ) (c : CredentialDefense)
    → truthy user ≡ true
    → All (λ e. time_of e ≤ later) es
    → recent c.window later (failures (handle_all es c).user_failures user)
      ≡ recent c.window later (failures c.user_failures user ++ failures_with user es)
unfolding handle_all
handle_all-user [] user later c named past =
    unfold failures_with in rw (append-nil (failures c.user_failures user)) refl
handle_all-user (e ∷ es) user later c named past = ground (
  arith,
  failures_with-cons e user es,
  handle-window e c,
  handle_all-user es user later (handle e c) named past.1,
  handle-user e user later (failures_with user es) c named past.0,
)

-- Locked out by what happened, no more and no less: after any failures and checks, none of them
-- later than now, a log-in is flagged exactly if the failures within the window reach the
-- threshold, those from its address, or those with its name where it has one.
pub flags_failures :
    (threshold window : ℕ) (es : List Event) (now : ℕ) (ip user : String)
    → All (λ e. time_of e ≤ now) es
    → (check_status now ip user (
        handle_all es (record {
          failure_threshold = threshold;
          window = window;
          ip_failures = [];
          user_failures = [];
        }))).1
      ≡ leb threshold (length (recent window now (failures_from ip es)))
        || leb threshold
            (if truthy user then length (recent window now (failures_with user es)) else 0)
unfolding check_status user_times
flags_failures threshold window es now ip user past =
    let c : CredentialDefense = record {
      failure_threshold = threshold;
      window = window;
      ip_failures = [];
      user_failures = [];
    } in
    let (same, kept) = handle_all-threshold es c in
    ground (
      arith,
      same,
      kept,
      handle_all-ip es ip now c past,
      handle_all-user es user now c,
      get-empty {V = List ℕ} ip,
      get-empty {V = List ℕ} user,
    )
