-- ===== src/Base/Strings.antt =====
-- The string functions of Go's standard library that the source uses, on bytes.
use Prim.Native.Nat.{ℕ, zero, suc, ◌+◌, ◌-◌, ◌/◌, ◌%◌}
use mathlib.Core.Bool.{Bool, false, ◌&&◌, ◌||◌}
use mathlib.Core.List.{List, [], ◌∷◌, ◌++◌, map, reverse}
use azeroth_core_web.Base.Tests.{Text, ltb, leb, ◌==◌, if◌then◌else◌}
use azeroth_core_web.Base.Lists.{contains_num}

-- `%d` of an unsigned number: a number has no more digits than its value plus one.
decimal_loop : ℕ → ℕ → Text → Text
decimal_loop zero n digits = digits
decimal_loop (suc rounds) n digits =
    let more = decimal_loop rounds (n / 10) ((48 + n % 10) ∷ digits) in
    if ltb n 10 then (48 + n) ∷ digits else more

unfoldable pub decimal : ℕ → Text
unfolding decimal_loop
decimal n = decimal_loop (suc n) n []

-- `%02d`
unfoldable pub decimal2 : ℕ → Text
unfolding decimal
decimal2 n = if ltb n 10 then 48 ∷ decimal n else decimal n

-- `strings.Join(parts, separator)`
unfoldable pub join : Text → List Text → Text
join separator [] = []
join separator (s ∷ []) = s
join separator (s ∷ t ∷ parts) = s ++ (separator ++ join separator (t ∷ parts))

-- The ASCII white space that `strings.TrimSpace` removes.
unfoldable pub is_space : ℕ → Bool
is_space c = (c == 32) || leb 9 c && leb c 13

unfoldable pub trim_left : Text → Text
unfolding is_space
trim_left [] = []
trim_left (c ∷ s) = if is_space c then trim_left s else c ∷ s

-- `strings.TrimSpace` on ASCII text
unfoldable pub trim_space : Text → Text
unfolding trim_left
trim_space s = reverse (trim_left (reverse (trim_left s)))

-- `strings.ToUpper` and `strings.ToLower` on ASCII text
unfoldable pub upper : ℕ → ℕ
upper c = if leb 97 c && leb c 122 then c - 32 else c

unfoldable pub lower : ℕ → ℕ
lower c = if leb 65 c && leb c 90 then c + 32 else c

abbrev pub to_upper : Text → Text
to_upper = map upper

abbrev pub to_lower : Text → Text
to_lower = map lower

-- `strings.ContainsAny(s, chars)`
unfoldable pub contains_any : Text → Text → Bool
contains_any [] chars = false
contains_any (c ∷ s) chars = contains_num chars c || contains_any s chars
