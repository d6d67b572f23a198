-- ===== src/RateLimiter/Window.antt =====
-- What the in-memory limiter of gateway/rate_limiter.py counts.
use erp_security.Prelude.{
  ℕ, suc, ◌≤◌, String, ◌==◌, ◌≡◌, eq_iff, arith, refl, ◌∙◌, List, [], ◌∷◌, ◌++◌, if◌then◌else◌,
  length, length-append, All,
}
use mathlib.Core.List.{append_assoc, append-nil}
use erp_security.Prelude.Dict.{get-put, get-empty}
use erp_security.Prelude.Window.{recent, recent-recent, recent-append}
use erp_security.RateLimiter.{InMemoryRateLimiter, timestamps, check_and_increment}

-- A request: its clock reading and its key.
pub record Hit : Type 0 where
  pub now : ℕ
  pub key : String

unfoldable pub count_all : List Hit → InMemoryRateLimiter → InMemoryRateLimiter
count_all [] r = r
count_all (h ∷ hs) r = count_all hs (check_and_increment h.now h.key r).0

-- The readings of the requests for a key.
unfoldable pub times_of : String → List Hit → List ℕ
times_of key [] = []
times_of key (h ∷ hs) = let rest = times_of key hs in if h.key == key then h.now ∷ rest else rest

check-window :
    (now : ℕ) (key : String) (r : InMemoryRateLimiter)
    → (check_and_increment now key r).0.window ≡ r.window
unfolding check_and_increment
check-window now key r = refl

pub count_all-window :
    (hs : List Hit) (r : InMemoryRateLimiter) → (count_all hs r).window ≡ r.window
unfolding count_all
count_all-window [] r = refl
count_all-window (h ∷ hs) r =
    count_all-window hs (check_and_increment h.now h.key r).0 ∙ check-window h.now h.key r

check-timestamps :
    (h : Hit) (key : String) (r : InMemoryRateLimiter)
    → timestamps (check_and_increment h.now h.key r).0 key ≡ (
        if h.key == key
        then recent r.window h.now (timestamps r h.key) ++ (h.now ∷ [])
        else timestamps r key)
unfolding check_and_increment
check-timestamps h key r = ground (
  arith,
  get-put r.records h.key key (recent r.window h.now (timestamps r h.key) ++ (h.now ∷ [])),
)

-- A window read now, of a purged list that has one reading more.
recent-purged :
    (window t now : ℕ) (ts us : List ℕ)
    → t ≤ now
    → recent window now ((recent window t ts ++ (t ∷ [])) ++ us)
      ≡ recent window now (ts ++ (t ∷ us))
recent-purged window t now ts us h =
    rw
      (
        append_assoc (recent window t ts) (t ∷ []) us,
        recent-append window now (recent window t ts) (t ∷ us),
        recent-append window now ts (t ∷ us),
        recent-recent window t now ts h,
      )
      refl

-- Each request for a key adds its reading to what a later window sees.
count_all-timestamps :
    (hs : List Hit) (key : String) (now : ℕ) (r : InMemoryRateLimiter)
    → All (λ h. h.now ≤ now) hs
    → recent r.window now (timestamps (count_all hs r) key)
      ≡ recent r.window now (timestamps r key ++ times_of key hs)
unfolding count_all times_of check_and_increment recent
count_all-timestamps [] key now r past = rw (append-nil (timestamps r key)) refl
count_all-timestamps (h ∷ hs) key now r past =
    count_all-timestamps hs key now (check_and_increment h.now h.key r).0 past.1
    ∙ ground (
      arith,
      check-timestamps h key r,
      recent-purged r.window h.now now (timestamps r h.key) (times_of key hs) past.0,
      eq_iff h.key key,
    )

-- The limiter counts what its window promises: after any requests, of any keys and none of them
-- later than now, a request is told the number of requests for its key within the window, itself
-- included.
pub counts_window :
    (window : ℕ) (hs : List Hit) (key : String) (now : ℕ)
    → All (λ h. h.now ≤ now) hs
    → (check_and_increment now key (count_all hs (record { window = window; records = [] }))).1
      ≡ suc (length (recent window now (times_of key hs)))
unfolding check_and_increment
counts_window window hs key now past =
    let r : InMemoryRateLimiter = record { window = window; records = [] } in
    ground (
      arith,
      count_all-window hs r,
      count_all-timestamps hs key now r past,
      get-empty {V = List ℕ} key,
      length-append (recent window now (times_of key hs)) (now ∷ []),
    )
