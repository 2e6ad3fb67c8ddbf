-- ===== src/Tests/Starting.antt =====
-- The start of the daemon and its MIDI bridge, at concrete inputs.
use jack_router.Common.{ℕ, ◌<◌, ◌≤◌, ◌≡◌, ◌⊎◌, refl, true, false, none, some, List, [], ◌∷◌}
use jack_router.Common.Int.{pos}
use jack_router.Common.Text.{codes}
use jack_router.Shm.{Shm, protocol_version}
use jack_router.Client.{Daemon}
use jack_router.Client
use jack_router.Wiring.{backend_ok, check_jack_backend, max_port_num}
use jack_router.Startup.{Surroundings, v, startup}
use jack_router.Startup.Settings.{four_in_two_out, startup_runs}
use jack_router.Midi.{Message, MidiPorts, process_midi_message}
use jack_router.Midi.Forwarding.{Forwarded, Drained, per_port, process_midi_message_cases}
use jack_router.Tests.Data.{region, answers, kernel}

abbrev surroundings : Surroundings
surroundings = record {
  config = some (some (pos 256));
  debug = false;
  server = true;
  sample_rate = 48000;
  attaching = answers;
  kernel = record kernel { object = some 0x40000 };
  region = region 1;
  playback = some (codes "coreaudio:BuiltIn:out1" ∷ []);
  acquired = false;
}

abbrev started : Daemon × Shm
started = Client.init true false 48000 256 (region 1)

startup_runs_example :
    (started.1.version ≡ protocol_version)
    × (check_jack_backend surroundings.playback ≡ backend_ok)
    × (started.0.is_active ≡ false)
    × (started.0.jitter_frames ≡ 256)
    × (four_in_two_out ≡ four_in_two_out)
unfolding startup Client.init
startup_runs_example = startup_runs (v ∷ []) surroundings started.0 started.1 four_in_two_out refl

-- One port in each direction.
abbrev one_port : MidiPorts
one_port = record { n_out_ports = 1; n_in_ports = 1; name_min = []; name_mout = [] }

abbrev note : ℕ → List Message
note i = (144 ∷ 60 ∷ 100 ∷ []) ∷ [] ∷ (128 ∷ 60 ∷ 0 ∷ []) ∷ []

process_midi_message_cases_example :
    ((1 ≤ max_port_num)
      × (1 ≤ max_port_num)
      × (sent : ℕ → List Message) × (got : ℕ → List Message) × (process_midi_message one_port
            (λ _ _. true)
            note
            note
          ≡ some (per_port 1 0 sent, per_port 1 0 got))
      × ((n : ℕ) → Forwarded (note n) (sent n))
      × ((n : ℕ) → Drained (λ _ _. true) (note n) [] (got n)))
    ⊎ (((max_port_num < 1) ⊎ (max_port_num < 1))
        × (process_midi_message one_port (λ _ _. true) note note ≡ none))
process_midi_message_cases_example = process_midi_message_cases one_port (λ _ _. true) note note
