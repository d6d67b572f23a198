-- ===== src/Prelude/Text.antt =====
-- Optional texts, as Python's `or` and truth tests read them: `None` and "" are both false.
use Prim.Native.Nat.{ℕ, zero, suc, ◌+◌, ◌-◌}
use Prim.Native.Char.{Char, code}
use Prim.Native.String.{String, char_at}
use mathlib.Core.Bool.{Bool, true, false, not, ◌&&◌, ◌||◌}
use mathlib.Core.Option.{Option, none, some}
use mathlib.Core.List.{List, [], ◌∷◌}
use text.Mathlib.Text.{◌==◌, starts_with}
use erp_security.Prelude.Tests.{if◌then◌else◌, leb, eqb}

-- `if s:` for a string.
abbrev pub truthy : String → Bool
truthy s = not (s == "")

-- `s if s else None`: an optional text that the code tests for truth.
abbrev pub truthy? : Option String → Option String
truthy? none = none
truthy? (some s) = if truthy s then some s else none

-- `a or b`, read for its truth.
abbrev pub either : Option String → Option String → Option String
either a b = elim (truthy? a) [ none ↦ truthy? b | some s ↦ some s ]

-- `s in xs`.
abbrev pub member : String → List String → Bool
member s [] = false
member s (x ∷ xs) = (x == s) || member s xs

-- The white space that `str.strip` removes.
abbrev is_space : ℕ → Bool
is_space c =
    (leb 9 c && leb c 13)
    || (leb 28 c && leb c 32)
    || eqb c 133
    || eqb c 160
    || eqb c 5760
    || (leb 8192 c && leb c 8202)
    || eqb c 8232
    || eqb c 8233
    || eqb c 8239
    || eqb c 8287
    || eqb c 12288

unfoldable pub lstrip : (ℕ → Bool) → String → String
lstrip p String.[] = String.[]
lstrip p (String.◌∷◌ c s) = let rest = lstrip p s in if p (code c) then rest else String.◌∷◌ c s

unfoldable pub rstrip : (ℕ → Bool) → String → String
rstrip p String.[] = String.[]
rstrip p (String.◌∷◌ c s) =
    let rest = rstrip p s in if p (code c) && rest == "" then String.[] else String.◌∷◌ c rest

-- `s.strip()`.
unfoldable pub strip : String → String
unfolding lstrip rstrip
strip s = rstrip is_space (lstrip is_space s)

-- How often a character stands in a text, and the text before its first one: `s.count(c)` and
-- `s.split(c)[0]`.
unfoldable pub count_char : ℕ → String → ℕ
count_char b String.[] = 0
count_char b (String.◌∷◌ c s) = (if eqb (code c) b then 1 else 0) + count_char b s

unfoldable pub before : ℕ → String → String
before b String.[] = String.[]
before b (String.◌∷◌ c s) = if eqb (code c) b then String.[] else String.◌∷◌ c (before b s)

-- `s.replace(t, "")` for a text t of k + 1 characters; `skip` counts those of an occurrence that
-- are still to be passed over.
remove_from : String → ℕ → ℕ → String → String
remove_from t k skip String.[] = String.[]
remove_from t k (suc skip) (String.◌∷◌ c s) = remove_from t k skip s
remove_from t k zero (String.◌∷◌ c s) =
    let inside = remove_from t k k s in
    let outside = remove_from t k zero s in
    if starts_with (String.◌∷◌ c s) t then inside else String.◌∷◌ c outside

-- `s.replace("Bearer ", "").strip()`.
unfoldable pub clean_token : String → String
unfolding remove_from strip
clean_token s = strip (remove_from "Bearer " 6 zero s)

-- `s.split(c)`.
unfoldable pub split : ℕ → String → List String
split b String.[] = String.[] ∷ []
split b (String.◌∷◌ c s) =
    let rest = split b s in if eqb (code c) b then String.[] ∷ rest else extend c rest
  where
    extend : Char → List String → List String
    extend c [] = []
    extend c (part ∷ parts) = String.◌∷◌ c part ∷ parts

-- `s.lower() == t` for a text t of plain lower-case letters: of the characters outside ASCII none
-- becomes one of a, b, c, e, l, n, r, s, t, y.
unfoldable pub lower_equals : String → String → Bool
lower_equals String.[] String.[] = true
lower_equals String.[] (String.◌∷◌ d t) = false
lower_equals (String.◌∷◌ c s) String.[] = false
lower_equals (String.◌∷◌ c s) (String.◌∷◌ d t) = eqb (lower (code c)) (code d) && lower_equals s t
  where
    lower : ℕ → ℕ
    lower n = if leb 65 n && leb n 90 then n + 32 else n

-- `s.upper() == t` for a text t of plain capitals but F, H, J, N, S and Y: of the characters outside
-- ASCII only the dotless i, 305, becomes one of the others.
unfoldable pub upper_equals : String → String → Bool
upper_equals String.[] String.[] = true
upper_equals String.[] (String.◌∷◌ d t) = false
upper_equals (String.◌∷◌ c s) String.[] = false
upper_equals (String.◌∷◌ c s) (String.◌∷◌ d t) = eqb (upper (code c)) (code d) && upper_equals s t
  where
    upper : ℕ → ℕ
    upper n = if leb 97 n && leb n 122 then n - 32 else if eqb n 305 then 73 else n

-- `s.upper()` for a text of ASCII characters, as methods are.
unfoldable pub upper : String → String
upper String.[] = String.[]
upper (String.◌∷◌ c s) = String.◌∷◌ (capital c (code c)) (upper s)
  where
    capital : Char → ℕ → Char
    capital c n = if leb 97 n && leb n 122 then char_at "ABCDEFGHIJKLMNOPQRSTUVWXYZ" (n - 97) else c
