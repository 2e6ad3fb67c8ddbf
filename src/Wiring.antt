-- ===== src/Wiring.antt =====
-- The JACK side of the daemon: how JackClient registers ports and callbacks, and how JackBridge checks
-- the backend and wires the ports of the slaves to its own.
use jack_router.Common.{
  ℕ, zero, suc, ◌+◌, ◌*◌, ◌%◌, ◌/◌, Bool, true, false, ◌==◌, ltb, if◌then◌else◌, Option, none, some,
  List, [], ◌∷◌, ◌++◌,
}
use jack_router.Common.Text.{Name, codes, same, includes, after_last, decimal}
use jack_router.Shm.{num_input_streams, num_output_streams}
pub mod Names
pub mod Graph
pub mod Wakeups
pub mod Backend
pub mod Rest

abbrev pub max_port_num : ℕ
max_port_num = 16

-- The loops of `register_ports` over one array of names, NULL standing for its end or for no array:
-- the names that are registered, in their order.
unfoldable pub registered : ℕ → List Name → List Name
registered zero names = []
registered (suc room) [] = []
registered (suc room) (name ∷ names) = name ∷ registered room names

abbrev pub given : Option (List Name) → List Name
given none = []
given (some names) = names

-- The names of the four kinds of ports, in the order of the loops.
pub record Ports : Type 0 where
  pub audio_in : List Name
  pub audio_out : List Name
  pub midi_in : List Name
  pub midi_out : List Name

unfoldable pub register_ports :
    Option (List Name) → Option (List Name) → Option (List Name) → Option (List Name) → Ports
unfolding registered
register_ports ain aout min mout = record {
  audio_in = registered max_port_num (given ain);
  audio_out = registered max_port_num (given aout);
  midi_in = registered max_port_num (given min);
  midi_out = registered max_port_num (given mout);
}

-- What `activate` sets up, in its order.
pub data Setup : Type 0 where
  set_process_callback set_xrun_callback on_shutdown set_sync_callback : Setup
  set_timebase_callback activate : Setup

-- `flags & bit`, for a bit that is a power of two.
abbrev flag_set : ℕ → ℕ → Bool
flag_set flags bit = flags / bit % 2 == 1

abbrev when_set : ℕ → ℕ → Setup → List Setup → List Setup
when_set flags bit x xs = if flag_set flags bit then x ∷ xs else xs

unfoldable pub client_activate : ℕ → List Setup
client_activate flags = when_set flags 0x1 set_process_callback (
    when_set flags 0x200 set_xrun_callback (
      on_shutdown
      ∷ when_set flags 0x800 set_sync_callback
          (when_set flags 0x1000 set_timebase_callback (activate ∷ []))))

-- `JACK_PROCESS_CALLBACK | JACK_XRUN_CALLBACK`
abbrev pub bridge_flags : ℕ
bridge_flags = 0x1 + 0x200

-- `prefix_1` to `prefix_count`.
unfoldable pub numbered : Name → ℕ → ℕ → List Name
unfolding decimal
numbered prefix zero i = []
numbered prefix (suc count) i = (prefix ++ decimal 10 (i + 1)) ∷ numbered prefix count (i + 1)

-- `config_audio_ports`
unfoldable pub config_audio_ports : List Name × List Name
unfolding numbered
config_audio_ports = (
  numbered (codes "input_") (num_input_streams * 2) 0,
  numbered (codes "output_") (num_output_streams * 2) 0,
)

-- How `check_jack_backend` ends; all but the first exit.
pub data Verdict : Type 0 where
  backend_ok no_playback no_aliases feedback : Verdict

unfoldable pub scan_aliases : List Name → Verdict
unfolding includes
scan_aliases [] = backend_ok
scan_aliases (alias ∷ aliases) =
    let rest = scan_aliases aliases in
    if includes (codes "JackBridge") alias then feedback else rest

-- `system:playback_1`, if there is one, with its aliases.
unfoldable pub check_jack_backend : Option (List Name) → Verdict
unfolding scan_aliases
check_jack_backend none = no_playback
check_jack_backend (some []) = no_aliases
check_jack_backend (some (alias ∷ aliases)) = scan_aliases (alias ∷ aliases)

-- `"%s_%d"`; 32 bytes are enough for the channels that there are.
unfoldable pub suffix : Name → ℕ → Name
unfolding decimal
suffix role ch = role ++ codes "_" ++ decimal 10 ch

abbrev pub short_is : Name → Option Name → Bool
short_is s none = false
short_is s (some t) = same t s

-- The first port whose name after the last colon is the suffix.
unfoldable pub match : Name → List Name → Option Name
unfolding after_last
match s [] = none
match s (port ∷ ports) =
    let rest = match s ports in if short_is s (after_last 58 port) then some port else rest

-- Source and destination of a connection.
abbrev pub Pair : Type 0
Pair = Name × Name

pub data Direction : Type 0 where
  from_slave to_slave : Direction

abbrev pub role_of : Direction → Name
role_of from_slave = codes "from_slave"
role_of to_slave = codes "to_slave"

abbrev pub ordered : Direction → Name → Name → Pair
ordered from_slave remote own = (remote, own)
ordered to_slave remote own = (own, remote)

abbrev pub wanted : Direction → Option Name → Name → List Pair → List Pair
wanted d none own ps = ps
wanted d (some remote) own ps = ordered d remote own ∷ ps

-- The loop over the channels of `wire_direction`, from `ch` on: what it asks jack_connect for.
unfoldable pub pairs_from : Direction → List Name → ℕ → List Name → List Pair
unfolding match suffix
pairs_from d ports ch [] = []
pairs_from d ports ch (own ∷ locals) =
    wanted d (match (suffix (role_of d) ch) ports) own (pairs_from d ports (ch + 1) locals)

-- `ports` is what jack_get_ports answers, `none` for NULL.
unfoldable pub pairs : Direction → Option (List Name) → List Name → List Pair
unfolding pairs_from
pairs d none locals = []
pairs d (some ports) locals = pairs_from d ports 1 locals
