-- ===== src/Startup.antt =====
-- `main` of daemon/JackBridge.cpp up to its loop: the configuration, the options, and the checks of the
-- constructor, in the order in which they can end the process.
pub mod Settings
use jack_router.Common.{
  ℕ, ◌+◌, Bool, true, false, ◌||◌, if◌then◌else◌, Option, none, some, List, [], ◌∷◌,
}
use jack_router.Common.Int.{ℤ, pos, negsuc}
use jack_router.Common.Text.{Name}
use jack_router.Shm.{Shm, Kernel, Answers, Rc, success, failure, attach_shm, check_protocol_version}
use jack_router.Client.{Daemon}
use jack_router.Client
use jack_router.Wiring.{
  Verdict, backend_ok, no_playback, no_aliases, feedback, check_jack_backend, Ports, register_ports,
  config_audio_ports,
}

-- `popen` fails, or `fscanf` finds no number, or finds one.
unfoldable pub read_config_long : Option (Option ℤ) → ℤ → ℤ
read_config_long none def = def
read_config_long (some none) def = def
read_config_long (some (some value)) def = value

-- `kDefaultJitterFrames`
abbrev pub default_jitter : ℕ
default_jitter = 192

-- `g_jitter_frames`: a negative value is replaced.
abbrev not_negative : ℤ → ℕ
not_negative (pos n) = n
not_negative (negsuc n) = default_jitter

unfoldable pub jitter_frames : Option (Option ℤ) → ℕ
unfolding read_config_long
jitter_frames config = not_negative (read_config_long config (pos default_jitter))

-- What getopt answers; `i` and `o` have a case only in the build with the MIDI bridge.
pub data Flag : Type 0 where
  v i o other_flag : Flag

-- `vflag`, or `none` for the usage message and the exit.
unfoldable pub parse_options : Bool → List Flag → Option Bool
parse_options vflag [] = some vflag
parse_options vflag (v ∷ flags) = parse_options true flags
parse_options vflag (f ∷ flags) = none

-- How the process ends before it is a JACK client with ports.
pub data Failure : Type 0 where
  usage no_server no_region other_version : Failure
  bad_backend : Verdict → Failure

pub data Started : Type 0 where
  exits : Failure → Started
  runs : Daemon → Shm → Ports → Started

-- What the process finds: its configuration and environment, JACK's server and the ports it has, and
-- the region.
pub record Surroundings : Type 0 where
  pub config : Option (Option ℤ)
  pub debug : Bool
  pub server : Bool
  pub sample_rate : ℕ
  pub attaching : Answers
  pub kernel : Kernel
  pub region : Shm
  pub playback : Option (List Name)
  pub acquired : Bool

-- The constructor's end, with the check of the backend passed.
abbrev pub run_with : Surroundings → Bool → Shm → Verdict → Started
run_with s vflag m backend_ok =
    let (ain, aout) = config_audio_ports in
    let (d, m') =
      Client.init (s.debug || vflag) s.acquired s.sample_rate (jitter_frames s.config) m in
    runs d m' (register_ports (some ain) (some aout) none none)
run_with s vflag m verdict = exits (bad_backend verdict)

abbrev pub connect_with : Surroundings → Bool → Rc → Started
connect_with s vflag failure = exits no_region
connect_with s vflag success =
    let (accepted, m) = check_protocol_version s.region in
    if accepted then run_with s vflag m (check_jack_backend s.playback) else exits other_version

abbrev pub start_with : Surroundings → Option Bool → Started
start_with s none = exits usage
start_with s (some vflag) =
    if s.server then connect_with s vflag (attach_shm s.attaching s.kernel).0 else exits no_server

unfoldable pub startup : List Flag → Surroundings → Started
unfolding jitter_frames parse_options register_ports config_audio_ports attach_shm
    check_protocol_version check_jack_backend Client.init
startup flags s = start_with s (parse_options false flags)
