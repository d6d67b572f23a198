-- ===== src/Prelude/Json.antt =====
-- The values that Python's `json.loads` makes. A number is an exact fraction; a float may also be
-- none, or infinite.
use Prim.Native.Nat.{ℕ, suc, ◌*◌}
use Prim.Native.String.{String}
use mathlib.Core.Bool.{Bool, true, false, not}
use mathlib.Core.Option.{Option, none, some}
use package.text.Mathlib.Text.{◌==◌}
use erp_security.Prelude.Tests.{if◌then◌else◌, ltb}
use erp_security.Prelude.Text.{truthy}

-- `ratio negative n d` is n / (d + 1), below 0 where `negative`.
pub data Number : Type 0 where
  not_a_number : Number
  infinite : Bool → Number
  ratio : Bool → ℕ → ℕ → Number

mutual
  pub data Json : Type 0 where
    null : Json
    boolean : Bool → Json
    number : Number → Json
    text : String → Json
    array : Items → Json
    object : Fields → Json

  pub data Items : Type 0 where
    no_items : Items
    item : Json → Items → Items

  pub data Fields : Type 0 where
    no_fields : Fields
    field : String → Json → Fields → Fields

-- `n < 0` and `n > k`.
abbrev pub below_zero : Number → Bool
below_zero not_a_number = false
below_zero (infinite negative) = negative
below_zero (ratio true n d) = ltb 0 n
below_zero (ratio false n d) = false

abbrev pub above : ℕ → Number → Bool
above k not_a_number = false
above k (infinite negative) = not negative
above k (ratio true n d) = false
above k (ratio false n d) = ltb (k * suc d) n

abbrev pub whole : ℕ → Number
whole n = ratio false n 0

-- `bool(v)`.
abbrev pub is_true : Json → Bool
is_true null = false
is_true (boolean b) = b
is_true (number not_a_number) = true
is_true (number (infinite negative)) = true
is_true (number (ratio negative n d)) = ltb 0 n
is_true (text s) = truthy s
is_true (array no_items) = false
is_true (array (item v vs)) = true
is_true (object no_fields) = false
is_true (object (field k v vs)) = true

-- What `isinstance` with `dict`, `list` and `str` asks.
abbrev pub as_object : Json → Option Fields
as_object (object d) = some d
as_object _ = none

abbrev pub as_array : Json → Option Items
as_array (array vs) = some vs
as_array _ = none

abbrev pub as_text : Json → Option String
as_text (text s) = some s
as_text _ = none

-- `d.get(key)`; the keys of a value that `json.loads` made differ.
unfoldable pub lookup : Fields → String → Option Json
lookup no_fields key = none
lookup (field k v d) key = if k == key then some v else lookup d key
