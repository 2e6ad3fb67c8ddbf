-- ===== src/Startup/Settings.antt =====
-- What holds of a daemon that has started.
use jack_router.Common.{
  ℕ, ◌≡◌, refl, arith, Bool, true, false, Bool-cases, inl, inr, Option, none, some, List, [], ◌∷◌,
}
use mathlib.Core.Path.{subst}
use jack_router.Common.Int.{ℤ, pos, negsuc}
use jack_router.Common.Text.{codes}
use jack_router.Shm.{
  Shm, Rc, success, failure, attach_shm, check_protocol_version, protocol_version,
}
use jack_router.Client
use jack_router.Client.{Daemon}
use jack_router.Wiring.{
  Verdict, backend_ok, no_playback, no_aliases, feedback, check_jack_backend, Ports, register_ports,
  config_audio_ports,
}
use jack_router.Startup.{
  Flag, Surroundings, Started, exits, runs, parse_options, jitter_frames, run_with, connect_with,
  start_with, startup,
}

-- The ports of the daemon.
abbrev pub four_in_two_out : Ports
four_in_two_out = record {
  audio_in = codes "input_1" ∷ codes "input_2" ∷ codes "input_3" ∷ codes "input_4" ∷ [];
  audio_out = codes "output_1" ∷ codes "output_2" ∷ [];
  midi_in = [];
  midi_out = [];
}

bridge_ports :
    register_ports (some config_audio_ports.0) (some config_audio_ports.1) none none
    ≡ four_in_two_out
unfolding register_ports config_audio_ports
bridge_ports = refl

-- What the configuration says of the margin: a number that is not negative, or nothing that counts.
abbrev pub configured : Option (Option ℤ) → ℕ
configured (some (some (pos n))) = n
configured config = 192

jitter_frames_lem : (config : Option (Option ℤ)) → jitter_frames config ≡ configured config
unfolding jitter_frames
jitter_frames_lem none = refl
jitter_frames_lem (some none) = refl
jitter_frames_lem (some (some (pos n))) = refl
jitter_frames_lem (some (some (negsuc n))) = refl

-- The result of a start that runs.
abbrev Runs : Surroundings → Started → Type 0
Runs s (exits f) = Unit {0}
Runs s (runs d m p) =
    (m.version ≡ protocol_version)
    × (check_jack_backend s.playback ≡ backend_ok)
    × (d.is_active ≡ false)
    × (d.jitter_frames ≡ configured s.config)
    × (p ≡ four_in_two_out)

accepted_version :
    (m : Shm)
    → (check_protocol_version m).0 ≡ true
    → (check_protocol_version m).1.version ≡ protocol_version
unfolding check_protocol_version
accepted_version m h = ground arith

run_with-Runs :
    (s : Surroundings) (vflag : Bool) (m : Shm) (w : Verdict)
    → check_jack_backend s.playback ≡ w
    → m.version ≡ protocol_version
    → Runs s (run_with s vflag m w)
unfolding Client.init
run_with-Runs s vflag m backend_ok e h = (h, e, refl, jitter_frames_lem s.config, bridge_ports)
run_with-Runs s vflag m no_playback e h = tt
run_with-Runs s vflag m no_aliases e h = tt
run_with-Runs s vflag m feedback e h = tt

connect_with-Runs : (s : Surroundings) (vflag : Bool) (r : Rc) → Runs s (connect_with s vflag r)
connect_with-Runs s vflag failure = tt
connect_with-Runs s vflag success = elim (Bool-cases (check_protocol_version s.region).0) [
  | inl e ↦ rw e (
      run_with-Runs s vflag (check_protocol_version s.region).1 (check_jack_backend s.playback) refl
        (accepted_version s.region e))
  | inr e ↦ rw e tt
]

start_with-Runs : (s : Surroundings) (o : Option Bool) → Runs s (start_with s o)
start_with-Runs s none = tt
start_with-Runs s (some vflag) = elim (Bool-cases s.server) [
  | inl e ↦ rw e (connect_with-Runs s vflag (attach_shm s.attaching s.kernel).0)
  | inr e ↦ rw e tt
]

-- A daemon that has started has found a region of its own protocol version and a backend that passes
-- the check; it is not active yet, its margin is the configured one where that is not negative and
-- 192 otherwise, and it has four inputs and two outputs of audio and none of MIDI.
pub startup_runs :
    (flags : List Flag) (s : Surroundings) (d : Daemon) (m : Shm) (p : Ports)
    → startup flags s ≡ runs d m p
    → (m.version ≡ protocol_version)
      × (check_jack_backend s.playback ≡ backend_ok)
      × (d.is_active ≡ false)
      × (d.jitter_frames ≡ configured s.config)
      × (p ≡ four_in_two_out)
unfolding startup
startup_runs flags s d m p h = subst (Runs s) h (start_with-Runs s (parse_options false flags))
