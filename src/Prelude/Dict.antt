-- ===== src/Prelude/Dict.antt =====
-- Python's `dict` with text keys, in insertion order: an update keeps the place of its key.
use Prim.Native.String.{String}
use mathlib.Core.Path.{◌≡◌, refl}
use mathlib.Core.Option.{Option, none, some}
use mathlib.Core.Bool.{Bool}
use mathlib.Core.List.{List, [], ◌∷◌}
use native.Mathlib.Omega.{arith}
use text.Mathlib.Text.{◌==◌}
use text.Mathlib.TextEquality.{eq_iff}
use erp_security.Prelude.Tests.{if◌then◌else◌, is_some}

abbrev pub Dict {ℓ} : Type ℓ → Type ℓ
Dict V = List (String × V)

module _ {ℓ} {V : Type ℓ} where
  -- `d.get(key)`.
  unfoldable pub get : Dict V → String → Option V
  get [] key = none
  get ((k, v) ∷ d) key = if k == key then some v else get d key

  -- `d[key] = value`.
  unfoldable pub put : Dict V → String → V → Dict V
  put [] key value = (key, value) ∷ []
  put ((k, v) ∷ d) key value = if k == key then (k, value) ∷ d else (k, v) ∷ put d key value

  -- `d.pop(key, None)`, and `del d[key]` where the key is present.
  unfoldable pub pop : Dict V → String → Dict V
  pop [] key = []
  pop ((k, v) ∷ d) key = let rest = pop d key in if k == key then rest else (k, v) ∷ rest

  -- `key in d`.
  abbrev pub has : Dict V → String → Bool
  has d key = is_some (get d key)

  pub get-put :
      (d : Dict V) (key j : String) (value : V)
      → get (put d key value) j ≡ (if key == j then some value else get d j)
  unfolding get put
  get-put [] key j value = refl
  get-put ((k, v) ∷ d) key j value =
      ground (arith, get-put d key j value, eq_iff k key, eq_iff k j, eq_iff key j)

  pub get-pop :
      (d : Dict V) (key j : String) → get (pop d key) j ≡ (if key == j then none else get d j)
  unfolding get pop
  get-pop [] key j = ground arith
  get-pop ((k, v) ∷ d) key j =
      ground (arith, get-pop d key j, eq_iff k key, eq_iff k j, eq_iff key j)

  pub get-empty : (key : String) → get [] key ≡ none
  unfolding get
  get-empty key = refl

pub ruleset dict_laws = (get-empty, get-put, get-pop)
