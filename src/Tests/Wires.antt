-- ===== src/Tests/Wires.antt =====
-- The wiring of slave ports, at concrete inputs.
use jack_router.Common.{
  ℕ, ◌≡◌, ◌≢◌, ◌⊎◌, refl, arith, Bool, true, false, ◌||◌, ◌&&◌, if◌then◌else◌, some, none, List, [],
  ◌∷◌, ◌++◌,
}
use jack_router.Common.Text.{Name, codes, same}
use jack_router.Wiring.{Pair, from_slave, to_slave, pairs, check_jack_backend, match}
use jack_router.Wiring.Names.{same_refl, NoneIs, IsFirst, match_cases}
use jack_router.Wiring.Graph.{Jack, eexist, AllConnected, auto_wire, auto_wire_again}
use jack_router.Wiring.Backend.{check_jack_backend_safe}
use jack_router.Wiring.Wakeups.{
  Main, stopped, Reach, begins_at, later, registers, calls_back, proceeds, start, register, proceed,
  call_back, settled_seen,
}
use jack_router.Wiring.Rest.{work, settle, is_settled, settle_rests}

-- A graph that is the list of its connections.
abbrev same_pair : Pair → Pair → Bool
same_pair p q = same p.0 q.0 && same p.1 q.1

abbrev is_in : List Pair → Pair → Bool
is_in [] q = false
is_in (p ∷ ps) q = same_pair p q || is_in ps q

same_pair_refl : (p : Pair) → same_pair p p ≡ true
same_pair_refl p = ground (arith, same_refl p.0, same_refl p.1)

abbrev connect : Pair → List Pair → ℕ × List Pair
connect p g = if is_in g p then (eexist, g) else (0, p ∷ g)

abbrev jack : Jack
jack = record {
  Graph = List Pair;
  connected = is_in;
  connect = connect;
  exists = λ p g h. ground arith;
  existed = λ p g h. ground arith;
  connects = λ p g h. ground (arith, same_pair_refl p);
  keeps = λ p q g h. ground arith;
}

abbrev slave_ports : List Name
slave_ports = codes "system:capture_1" ∷ codes "pi:from_slave_2" ∷ codes "pi:from_slave_1" ∷ []

abbrev own_ports : List Name
own_ports = codes "JackBridge #1:input_1" ∷ codes "JackBridge #1:input_2" ∷ []

auto_wire_again_example :
    let g' = (auto_wire jack (some slave_ports) none own_ports [] []).1 in
    AllConnected jack g' (pairs from_slave (some slave_ports) own_ports)
    × AllConnected jack g' (pairs to_slave none [])
    × (auto_wire jack (some slave_ports) none own_ports [] g' ≡ ([], g'))
unfolding auto_wire
auto_wire_again_example = auto_wire_again jack (some slave_ports) none own_ports [] [] refl

match_cases_example :
    ((match (codes "from_slave_1") slave_ports ≡ none) × NoneIs (codes "from_slave_1") slave_ports)
    ⊎ ((port : Name) × (match (codes "from_slave_1") slave_ports ≡ some port)
        × IsFirst (codes "from_slave_1") slave_ports port)
match_cases_example = match_cases (codes "from_slave_1") slave_ports

abbrev aliases : List Name
aliases = codes "coreaudio:BuiltIn:out1" ∷ []

check_jack_backend_safe_example :
    (found : List Name) × (some aliases ≡ some found)
    × (found ≢ [])
    × (found ≢ [] ++ (codes "coreaudio:" ++ (codes "JackBridge" ++ codes ":out1")) ∷ [])
unfolding check_jack_backend
check_jack_backend_safe_example =
    check_jack_backend_safe (some aliases) [] [] (codes "coreaudio:") (codes ":out1") refl

-- One slave port registers after the daemon has looked; the callback marks it and `main` looks again.
abbrev looked : Main
looked = proceed (proceed (start 2))

looked-Reach : Reach 2 looked
looked-Reach = later (later begins_at proceeds) proceeds

abbrev noticed : Main
noticed = call_back (call_back (call_back (register (codes "from_slave_1") looked)))

noticed-Reach : Reach 2 noticed
noticed-Reach =
    later
      (later (later (later looked-Reach (registers (codes "from_slave_1"))) calls_back) calls_back)
      calls_back

abbrev wired : Main
wired = proceed (proceed (proceed (proceed noticed)))

wired-Reach : Reach 2 wired
wired-Reach = later (later (later (later noticed-Reach proceeds) proceeds) proceeds) proceeds

settled_seen_example : wired.unseen ≡ 0
unfolding proceed call_back register
settled_seen_example = settled_seen wired-Reach refl refl refl refl

settle_rests_example :
    let t = settle (work noticed) noticed in
    Reach 2 t × (is_settled t ≡ true) × ((t.unseen ≡ 0) ⊎ (t.pc ≡ stopped))
settle_rests_example = settle_rests noticed-Reach
