-- ===== src/Wiring/Names.antt =====
-- Which port a channel is wired to.
use jack_router.Common.{
  ℕ, zero, suc, ◌+◌, ◌-◌, ◌*◌, ◌/◌, ◌%◌, ◌^◌, ◌<◌, ◌≡◌, refl, sym, ap, ◌∙◌, arith, true, false, ltb,
  Option, none, some, List, [], ◌∷◌, ◌++◌, ◌⊎◌, inl, inr, Bool-cases,
}
use jack_router.Common.Text.{Name, codes, same, after_last, decimal}
use jack_router.Wiring.{short_is, match, suffix, Direction, role_of}

-- The number that a name of digits reads as, from the left.
abbrev value : ℕ → Name → ℕ
value acc [] = acc
value acc (c ∷ s) = value (acc * 10 + (c - 48)) s

value-append : (acc c : ℕ) (s : Name) → value acc (s ++ c ∷ []) ≡ value acc s * 10 + (c - 48)
value-append acc c [] = refl
value-append acc c (d ∷ s) = value-append (acc * 10 + (d - 48)) c s

tenth : (fuel n : ℕ) → n < 10 ^ suc fuel → n / 10 < 10 ^ fuel
tenth fuel n h = omega arith

last_digit : (n : ℕ) → n / 10 * 10 + (48 + n % 10 - 48) ≡ n
last_digit n = omega arith

-- Reading back what `%d` has printed.
value-decimal : (fuel n : ℕ) → n < 10 ^ fuel → value 0 (decimal fuel n) ≡ n
unfolding decimal
value-decimal zero n h = omega arith
value-decimal (suc fuel) n h = elim (Bool-cases (ltb n 10)) [
  | inl e ↦ rw e (omega arith)
  | inr e ↦
      let quotient = value-decimal fuel (n / 10) (tenth fuel n h) in
      rw (e, value-append 0 (48 + n % 10) (decimal fuel (n / 10)), quotient) (last_digit n)
]

pub same_eq : (s t : Name) → same s t ≡ true → s ≡ t
same_eq [] [] h = refl
same_eq [] (d ∷ t) h = cc
same_eq (c ∷ s) [] h = cc
same_eq (c ∷ s) (d ∷ t) h = ground (arith, same_eq s t)

pub same_refl : (s : Name) → same s s ≡ true
same_refl [] = refl
same_refl (c ∷ s) = ground (arith, same_refl s)

append_cancel : (p s t : Name) → p ++ s ≡ p ++ t → s ≡ t
append_cancel [] s t h = h
append_cancel (c ∷ p) s t h = append_cancel p s t (cc h)

-- The suffixes of different channels are different.
suffix_injective :
    (role : Name) (i j : ℕ) → i < 10 ^ 10 → j < 10 ^ 10 → suffix role i ≡ suffix role j → i ≡ j
unfolding suffix
suffix_injective role i j hi hj h =
    let digits = append_cancel (role ++ codes "_") (decimal 10 i) (decimal 10 j) h in
    sym (value-decimal 10 i hi) ∙ ap (value 0) digits ∙ value-decimal 10 j hj

-- No port of the list has this name after its last colon.
abbrev pub NoneIs : Name → List Name → Type 0
NoneIs s [] = Unit {0}
NoneIs s (port ∷ ports) = (short_is s (after_last 58 port) ≡ false) × NoneIs s ports

-- The port is the first of the list with this name.
pub record IsFirst (s : Name) (ports : List Name) (port : Name) : Type 0 where
  pub earlier : List Name
  pub later : List Name
  pub split : ports ≡ earlier ++ port ∷ later
  pub none_earlier : NoneIs s earlier
  pub name : after_last 58 port ≡ some s

short_name : (s : Name) (o : Option Name) → short_is s o ≡ true → o ≡ some s
short_name s none h = cc
short_name s (some t) h = ap some (same_eq t s h)

-- The port that is found for a name is the first with that name after its last colon; none is found
-- exactly if there is none.
pub match_cases :
    (s : Name) (ports : List Name)
    → ((match s ports ≡ none) × NoneIs s ports)
      ⊎ ((port : Name) × (match s ports ≡ some port) × IsFirst s ports port)
unfolding match
match_cases s [] = inl (refl, tt)
match_cases s (port ∷ ports) = elim (Bool-cases (short_is s (after_last 58 port))) [
  | inl e ↦ inr (
    port,
    rw e refl,
    record {
      earlier = [];
      later = ports;
      split = refl;
      none_earlier = tt;
      name = short_name s (after_last 58 port) e;
    },
  )
  | inr e ↦ elim (match_cases s ports) [
    | inl (m, none_is) ↦ inl (rw e m, (e, none_is))
    | inr (found, m, f) ↦ inr (
      found,
      rw e m,
      record {
        earlier = port ∷ f.earlier;
        later = f.later;
        split = ap (λ ps. port ∷ ps) f.split;
        none_earlier = (e, f.none_earlier);
        name = f.name;
      },
    )
  ]
]

-- The remote port of a channel.
abbrev pub remote : Direction → List Name → ℕ → Option Name
remote d ports ch = match (suffix (role_of d) ch) ports

some_inj : (s t : Name) → some s ≡ some t → s ≡ t
some_inj s t h = cc

found_name :
    (s : Name) (ports : List Name) (port : Name)
    → match s ports ≡ some port
    → after_last 58 port ≡ some s
found_name s ports port h = elim (match_cases s ports) [
  | inl (n, x) ↦ absurd (cc (n, h))
  | inr (found, n, f) ↦
      let q : found ≡ port = some_inj found port (sym n ∙ h) in ap (after_last 58) (sym q) ∙ f.name
]

-- No remote port is wired to two channels of one direction.
pub remote_injective :
    (d : Direction) (ports : List Name) (i j : ℕ) (port : Name)
    → i < 10 ^ 10
    → j < 10 ^ 10
    → remote d ports i ≡ some port
    → remote d ports j ≡ some port
    → i ≡ j
remote_injective d ports i j port hi hj h h' = suffix_injective (role_of d) i j hi hj (
    some_inj (suffix (role_of d) i) (suffix (role_of d) j) (
      sym (found_name (suffix (role_of d) i) ports port h)
      ∙ found_name (suffix (role_of d) j) ports port h'))
