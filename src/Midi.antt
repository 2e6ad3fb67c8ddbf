-- ===== src/Midi.antt =====
-- The MIDI bridge of daemon/JackBridge.cpp, which is compiled with _WITH_MIDI_BRIDGE_: its ports, and
-- what one period moves between JACK and CoreMIDI. RtMidi is its ports' queues and what is sent.
pub mod Forwarding
use jack_router.Common.{
  ℕ, zero, suc, ◌+◌, Bool, true, false, ltb, if◌then◌else◌, Option, none, some, ◌>>=◌, List, [],
  ◌∷◌, ◌++◌,
}
use jack_router.Common.Int.{ℤ, pos, negsuc}
use jack_router.Common.Size.{length}
use jack_router.Common.Text.{Name, codes}
use jack_router.Wiring.{max_port_num, numbered}

abbrev pub Message : Type 0
Message = List ℕ

-- `get_num_ports`: `none` is the NULL of jack_get_ports.
abbrev pub get_num_ports : Option (List Name) → ℕ
get_num_ports none = 0
get_num_ports (some ports) = length ports

-- The count of the option, or the number of JACK's ports if it is negative.
abbrev pub port_count : ℤ → Option (List Name) → ℕ
port_count (pos n) ports = n
port_count (negsuc n) ports = get_num_ports ports

pub record MidiPorts : Type 0 where
  pub n_out_ports : ℕ
  pub n_in_ports : ℕ
  pub name_min : List Name
  pub name_mout : List Name

-- `create_midi_ports`, when RtMidi opens every port: it exits where RtMidi throws.
unfoldable pub create_midi_ports : ℤ → ℤ → Option (List Name) → Option (List Name) → MidiPorts
unfolding numbered
create_midi_ports num_min num_mout outputs inputs =
    let n_out = port_count num_mout outputs in
    let n_in = port_count num_min inputs in
    record {
      n_out_ports = n_out;
      n_in_ports = n_in;
      name_min = numbered (codes "event_in_") n_out 0;
      name_mout = numbered (codes "event_out_") n_in 0;
    }

abbrev pub is_empty : Message → Bool
is_empty [] = true
is_empty (b ∷ m) = false

-- The events of one JACK port: those that are not empty are sent.
unfoldable pub send_events : List Message → List Message
send_events [] = []
send_events (m ∷ ms) = let rest = send_events ms in if is_empty m then rest else m ∷ rest

-- The loop over the JACK inputs, from the port `n` on. `midiIn` has `max_port_num` elements.
unfoldable pub to_core_midi : ℕ → ℕ → (ℕ → List Message) → Option (List (List Message))
unfolding send_events
to_core_midi zero n events = some []
to_core_midi (suc count) n events =
    let rest = to_core_midi count (n + 1) events in
    if ltb n max_port_num then (do sent ← rest; some (send_events (events n) ∷ sent)) else none

-- What one CoreMIDI queue gives to a JACK port: `getMessage` answers an empty message once the queue
-- is empty, and that ends the loop. `reserve` is whether the port's buffer, with what was written,
-- has room for a message.
unfoldable pub drain : (List Message → Message → Bool) → List Message → List Message → List Message
drain reserve written [] = written
drain reserve written ([] ∷ ms) = written
drain reserve written ((b ∷ m) ∷ ms) =
    drain reserve (if reserve written (b ∷ m) then written ++ (b ∷ m) ∷ [] else written) ms

unfoldable pub from_core_midi :
    (List Message → Message → Bool) → ℕ → ℕ → (ℕ → List Message) → Option (List (List Message))
unfolding drain
from_core_midi reserve zero n queues = some []
from_core_midi reserve (suc count) n queues =
    let rest = from_core_midi reserve count (n + 1) queues in
    if ltb n max_port_num then (do got ← rest; some (drain reserve [] (queues n) ∷ got)) else none

-- `process_midi_message`: what is sent to CoreMIDI, and what is written to JACK, port by port.
unfoldable pub process_midi_message :
    MidiPorts
    → (List Message → Message → Bool)
    → (ℕ → List Message)
    → (ℕ → List Message)
    → Option (List (List Message) × List (List Message))
unfolding to_core_midi from_core_midi
process_midi_message p reserve events queues = do
  sent ← to_core_midi p.n_out_ports 0 events
  written ← from_core_midi reserve p.n_in_ports 0 queues
  some (sent, written)
