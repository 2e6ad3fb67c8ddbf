-- ===== src/Common/Text.antt =====
-- C strings as the lists of their bytes, without the terminator.
use Prim.Native.Char.{code}
use Prim.Native.String.{String}
use Prim.Native.Nat.{ℕ, zero, suc, ◌+◌, ◌/◌, ◌%◌}
use mathlib.Core.Bool.{Bool, true, false, ◌&&◌, ◌||◌}
use mathlib.Core.Option.{Option, none, some}
use mathlib.Core.List.{List, [], ◌∷◌, ◌++◌}
use jack_router.Common.Tests.{◌==◌, ltb, if◌then◌else◌}

abbrev pub Name : Type 0
Name = List ℕ

abbrev pub codes : String → Name
codes String.[] = []
codes (String.◌∷◌ c s) = code c ∷ codes s

-- `strcmp(s, t) == 0`
abbrev pub same : Name → Name → Bool
same [] [] = true
same (c ∷ s) (d ∷ t) = c == d && same s t
same s t = false

-- `strncmp(s, p, strlen(p)) == 0`
abbrev pub begins : Name → Name → Bool
begins [] s = true
begins (c ∷ p) [] = false
begins (c ∷ p) (d ∷ s) = c == d && begins p s

-- `strstr(s, p) != NULL`
unfoldable pub includes : Name → Name → Bool
includes p [] = begins p []
includes p (d ∷ s) = begins p (d ∷ s) || includes p s

abbrev latest : Option Name → Name → Option Name
latest none s = some s
latest (some t) s = some t

-- `strrchr(s, c) + 1`: what follows the last `c`.
unfoldable pub after_last : ℕ → Name → Option Name
after_last c [] = none
after_last c (d ∷ s) = let rest = after_last c s in if d == c then latest rest s else rest

-- `%d` of a number below 10 ^ fuel.
unfoldable pub decimal : ℕ → ℕ → Name
decimal zero n = []
decimal (suc fuel) n =
    let rest = decimal fuel (n / 10) in
    if ltb n 10 then (48 + n) ∷ [] else rest ++ (48 + n % 10) ∷ []
