-- ===== src/Health.antt =====
-- The health trace of the JACK client: check_progress and xrun_callback of daemon/JackBridge.cpp.
use jack_router.Common.{
  ℕ, ◌+◌, ◌*◌, ◌/◌, ◌&&◌, ◌||◌, ◌==◌, ltb, if◌then◌else◌, u32, u64, Option, none, some, ◌>>=◌, List,
  [], ◌∷◌,
}
use jack_router.Common.Int.{ℤ, pos, ◌-ℤ◌, is_negative, abs, s64}
use jack_router.Seqlock.{retries}
use jack_router.Client.{Daemon, Observation}

abbrev pub snap_threshold_frames : ℕ
snap_threshold_frames = 512

-- The loop of `check_progress`, over what its loads find one time after another; `none` where the
-- list ends before a snapshot is accepted.
unfoldable pub snapshot : List Observation → Option ℕ
snapshot [] = none
snapshot (o ∷ os) = if retries o.s1 o.s2 then snapshot os else some o.head

-- `(FrameNumber - halReadHead) - JitterFrames`
abbrev pub delta : ℕ → Daemon → ℤ
delta head d = (s64 d.frame_number -ℤ s64 head) -ℤ pos d.jitter_frames

unfoldable pub note_margin : ℕ → Daemon → Daemon
note_margin head d =
    if ltb 0 head && d.is_active
    then record d {
      health_margin_abs_dev = u64 (d.health_margin_abs_dev + abs (delta head d));
      health_deficit =
          (if is_negative (delta head d)
            then u64 (d.health_deficit + abs (delta head d))
            else d.health_deficit);
      snap_count =
          (if ltb snap_threshold_frames (abs (delta head d))
            then u32 (d.snap_count + 1)
            else d.snap_count);
    }
    else d

-- The line of the health trace.
pub record Trace : Type 0 where
  pub xruns : ℕ
  pub deficit : ℕ
  pub margin_abs_dev : ℕ
  pub snaps : ℕ

abbrev pub trace_period : Daemon → ℕ
trace_period d = u64 (d.sample_rate * 5)

unfoldable pub trace_health : Daemon → Daemon × Option Trace
trace_health d =
    if trace_period d == 0 || d.frame_number / trace_period d == d.last_trace_frame / trace_period d
    then (record d { last_trace_frame = d.frame_number }, none)
    else (
      record d {
        xrun_count = 0;
        snap_count = 0;
        health_deficit = 0;
        health_margin_abs_dev = 0;
        last_trace_frame = d.frame_number;
      },
      some (record {
        xruns = d.xrun_count;
        deficit = d.health_deficit;
        margin_abs_dev = d.health_margin_abs_dev;
        snaps = d.snap_count;
      }),
    )

unfoldable pub check_progress : List Observation → Daemon → Option (Daemon × Option Trace)
unfolding snapshot note_margin trace_health
check_progress os d = do head ← snapshot os; some (trace_health (note_margin head d))

unfoldable pub xrun_callback : Daemon → Daemon
xrun_callback d = record d { xrun_count = u32 (d.xrun_count + 1) }
