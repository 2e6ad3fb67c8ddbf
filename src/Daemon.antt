-- ===== src/Daemon.antt =====
-- The process callback of the JACK client in daemon/JackBridge.cpp, with what it calls.
pub mod Prepared
pub mod Progress
pub mod Transport
pub mod Untouched
pub mod Registers
pub mod Anchor
pub mod Cycle
pub mod Idle
pub mod Membership
use jack_router.Common.{
  ℕ, zero, suc, ◌+◌, ◌-◌, ◌*◌, ◌/◌, ◌%◌, ◌^◌, Bool, true, false, not, ◌&&◌, ◌||◌, ◌==◌, ltb, leb,
  if◌then◌else◌, u32, u64, Option, none, some, ◌>>=◌, List, [], ◌∷◌,
}
use jack_router.Common.Int.{ℤ, pos, ◌-ℤ◌, is_negative, abs, s64}
use jack_router.Common.Array.{Array, update, bzero}
use jack_router.Shm.{
  Shm, strbufnum, strbufsz, drv_status_init, drv_status_active, drv_status_started,
}
use jack_router.Ring.{
  RingProjector, send_offset, recv_offset, ring_write_stereo_interleaved,
  ring_consume_stereo_interleaved,
}
use jack_router.Seqlock.{retries}
use jack_router.Client.{Daemon, Observation, Period, frames_per_buffer, join_workgroup}
use jack_router.Health.{Trace, check_progress}

-- A restart of the HAL's IO since the last call.
unfoldable pub reanchor : Period → Daemon → Shm → Shm
reanchor p d m =
    if m.driver_status == drv_status_started && not (d.last_driver_status == drv_status_started)
    then record m {
      zero_host_time = p.restart_time;
      number_time_stamps = d.frame_number / frames_per_buffer;
      seed = u64 (m.seed + 1);
    }
    else m

unfoldable pub activate : Daemon → Shm → Daemon × Shm
activate d m = if d.is_active then (d, m) else (
  record d { ncalls = 0; frame_number = 0; is_active = true },
  (if d.is_sync_mode
      then record m { sync_mode = 1; number_time_stamps = 0; seed = u64 (m.seed + 1) }
      else m),
)

-- The time stamp at each start of the ring.
unfoldable pub mark_zero_time : Period → Daemon → Shm → Shm
mark_zero_time p d m =
    if d.frame_number % frames_per_buffer == 0
    then record m {
      zero_host_time = p.anchor_time;
      number_time_stamps = d.frame_number / frames_per_buffer;
    }
    else m

-- The calls that the verbose trace counts.
abbrev count_call : Daemon → Daemon
count_call d = if not d.is_sync_mode && d.is_verbose then record d { ncalls = d.ncalls + 1 } else d

abbrev pub projector : Daemon → RingProjector
projector d = record { ring_frames = frames_per_buffer; frame_cursor = d.frame_number }

-- Two input streams.
unfoldable pub send_to_core_audio : Period → Daemon → Shm → Option Shm
unfolding send_offset ring_write_stereo_interleaved
send_to_core_audio p d m = do
  let offset = send_offset (projector d)
  ring0 ←
      ring_write_stereo_interleaved (m.buf_down 0) offset (p.audio_in 0) (p.audio_in 1) p.nframes
  ring1 ←
      ring_write_stereo_interleaved (m.buf_down 1) offset (p.audio_in 2) (p.audio_in 3) p.nframes
  some (record m { buf_down = update (update m.buf_down 0 ring0) 1 ring1 })

-- One output stream.
unfoldable pub receive_from_core_audio :
    Period → Daemon → Shm → Array × Array → Option (Shm × Array × Array)
unfolding recv_offset ring_consume_stereo_interleaved
receive_from_core_audio p d m (l, r) = do
  (ring, l', r') ←
      ring_consume_stereo_interleaved (m.buf_up 0) (recv_offset (projector d) p.nframes) l r
        p.nframes
  some (record m { buf_up = update m.buf_up 0 ring }, l', r')

unfoldable pub silence : ℕ → Array × Array → Option (Array × Array)
unfolding bzero
silence n (l, r) = do l' ← bzero l 0 n; r' ← bzero r 0 n; some (l', r')

-- `bzero(aout[i], STRBUFSZ)`, for both output ports: as many samples as the whole ring holds.
unfoldable pub silence_outputs : Array × Array → Option (Array × Array)
silence_outputs out = silence strbufnum out

pub record Processed : Type 0 where
  pub daemon : Daemon
  pub shm : Shm
  pub out : Array × Array
  pub trace : Option Trace

-- The samples of the period, and the cursor after them.
unfoldable pub move_samples :
    Period → Option Trace → Daemon → Shm → Array × Array → Option Processed
unfolding send_to_core_audio receive_from_core_audio
move_samples p trace d m out = do
  sent ← send_to_core_audio p d m
  (received, l, r) ← receive_from_core_audio p d sent out
  some (record {
    daemon = record d { frame_number = u64 (d.frame_number + p.nframes) };
    shm = received;
    out = (l, r);
    trace = trace;
  })

-- From `check_progress` to the end, with the driver started.
unfoldable pub run_period : Period → Daemon → Shm → Array × Array → Option Processed
unfolding check_progress activate mark_zero_time move_samples
run_period p d m out = do
  (checked, trace) ← check_progress p.observations d
  let (active, m') = activate checked m
  move_samples p trace (count_call active) (mark_zero_time p active m') out

unfoldable pub idle_period : Daemon → Shm → Array × Array → Option Processed
unfolding silence_outputs
idle_period d m out = do
  out' ← silence_outputs out
  some (record { daemon = d; shm = m; out = out'; trace = none })

-- `none` where a copy would go outside its buffers, or the loop of `check_progress` does not end.
unfoldable pub process_callback : Period → Daemon → Shm → Array × Array → Option Processed
unfolding join_workgroup reanchor run_period idle_period
process_callback p d m out =
    let joined = join_workgroup p d in
    let beating = record m { daemon_alive = u64 (m.daemon_alive + 1) } in
    let anchored = reanchor p joined beating in
    let seen = record joined { last_driver_status = m.driver_status } in
    if m.driver_status == drv_status_started
    then run_period p seen anchored out
    else idle_period seen anchored out

unfoldable pub on_shutdown : Shm → Shm
on_shutdown m = record m { daemon_alive = 0; driver_status = drv_status_init }
