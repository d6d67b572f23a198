-- ===== src/Prelude/Window.antt =====
-- Sliding windows of clock readings, as the limiters keep them.
use Prim.Native.Nat.{ℕ, ◌+◌, ◌≤◌}
use mathlib.Core.Path.{◌≡◌, refl}
use mathlib.Core.List.{List, [], ◌∷◌, ◌++◌}
use native.Mathlib.Omega.{arith}
use erp_security.Prelude.Tests.{ltb}
use erp_security.Prelude.Lists.{filter, filter-append}

-- `[t for t in ts if t > now - window]`.
unfoldable pub recent : ℕ → ℕ → List ℕ → List ℕ
recent window now ts = filter (λ t. ltb now (t + window)) ts

-- A purge at one time loses nothing that a later window would hold.
pub recent-recent :
    (window now later : ℕ) (ts : List ℕ)
    → now ≤ later
    → recent window later (recent window now ts) ≡ recent window later ts
unfolding recent
recent-recent window now later [] h = refl
recent-recent window now later (t ∷ ts) h = ground (arith, recent-recent window now later ts h)

pub recent-append :
    (window now : ℕ) (ts us : List ℕ)
    → recent window now (ts ++ us) ≡ recent window now ts ++ recent window now us
unfolding recent
recent-append window now ts us = filter-append (λ t. ltb now (t + window)) ts us
