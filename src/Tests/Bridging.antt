-- ===== src/Tests/Bridging.antt =====
-- The daemon, alone and with the driver, at concrete inputs.
use jack_router.Common.{
  ℕ, ◌+◌, ◌*◌, ◌%◌, ◌≡◌, refl, arith, inr, some, none, true, if◌then◌else◌, ltb, u64,
}
use jack_router.Common.Array.{Array, Filled}
use jack_router.Shm.{Shm}
use jack_router.Ring.Copies.{interleave}
use jack_router.Device.Clock.{stamp, heartbeat}
use jack_router.Device.Transfer.{read_input_data, write_output_data}
use jack_router.Health.{snapshot}
use jack_router.Daemon.{Processed, process_callback}
use jack_router.Daemon.Transport.{Aligned}
use jack_router.Daemon.Cycle.{IsReady, IsMoved, process_callback_cycle}
use jack_router.Daemon.Idle.{process_callback_idle, process_callback_overruns}
use jack_router.Daemon.Anchor.{
  process_callback_beats, process_callback-stamp, process_callback_restart,
}
use jack_router.Bridge.Downstream.{daemon_to_hal, read_until}
use jack_router.Bridge.Upstream.{hal_to_daemon, IsSide}
use jack_router.Tests.Data.{whole, silent, counting, region, device, daemon, period}

-- The fourth period of the ring's second round.
aligned : Aligned 64 4288
aligned = record { periods = 64; number = 3; whole = refl; place = refl; before = omega arith }

ready : IsReady period (daemon 2 4288) (region 2) (silent 64) (silent 64)
unfolding snapshot
ready = record {
  head = 100;
  accepts = refl;
  aligned = aligned;
  down₀ = refl;
  down₁ = refl;
  up₀ = refl;
  ports = λ i. omega arith;
  left = omega arith;
  right = omega arith;
}

process_callback_cycle_example :
    (o : Processed) × (process_callback period (daemon 2 4288) (region 2) (silent 64, silent 64)
      ≡ some o)
    × IsMoved period 4288 (region 2).buf_down (region 2).buf_up (silent 64) (silent 64) o
process_callback_cycle_example =
    process_callback_cycle period (daemon 2 4288) (region 2) (silent 64) (silent 64) refl ready

daemon_to_hal_example :
    (o : Processed) × (out' : Array) × (process_callback period
        (daemon 2 4288)
        (region 2)
        (silent 64, silent 64)
      ≡ some o)
    × (read_input_data whole 0 64 4288 (silent 128) device o.shm
        ≡ some (out', read_until o.shm (4288 + 64)))
    × ((k : ℕ)
        → out'.cell k ≡ (if ltb k (64 * 2) then interleave (counting 64) (counting 64) 0 k else 0))
daemon_to_hal_example =
    daemon_to_hal whole period (daemon 2 4288) (region 2) (silent 64) (silent 64) 4288 (silent 128)
      device refl ready refl refl refl (omega arith)

hal_to_daemon_example :
    (m' : Shm) × (o : Processed) × (write_output_data whole 0 64 4224
        (counting 128)
        device
        (region 2)
      ≡ some m')
    × (process_callback period (daemon 2 4288) m' (silent 64, silent 64) ≡ some o)
    × IsSide 0 64 (counting 128) (silent 64) o.out.0
    × IsSide 1 64 (counting 128) (silent 64) o.out.1
    × Filled (m'.buf_up 0) (4224 % 4096 * 2) (64 * 2) (λ _. 0) (o.shm.buf_up 0)
hal_to_daemon_example =
    hal_to_daemon whole period (daemon 2 4288) (region 2) (silent 64) (silent 64) 4224
      (counting 128) device refl ready refl refl (omega arith)

process_callback_idle_example :
    (o : Processed) × (process_callback period (daemon 1 4288) (region 1) (silent 8192, silent 8192)
      ≡ some o)
    × (o.daemon.frame_number ≡ 4288)
    × (o.shm ≡ record (region 1) { daemon_alive = u64 (7 + 1) })
    × Filled (silent 8192) 0 8192 (λ _. 0) o.out.0
    × Filled (silent 8192) 0 8192 (λ _. 0) o.out.1
process_callback_idle_example =
    process_callback_idle period (daemon 1 4288) (region 1) (silent 8192) (silent 8192)
      (λ e. ground arith) (omega arith) (omega arith)

-- The buffers of a period of 64 frames.
process_callback_overruns_example :
    process_callback period (daemon 1 4288) (region 1) (silent 64, silent 64) ≡ none
process_callback_overruns_example =
    process_callback_overruns period (daemon 1 4288) (region 1) (silent 64) (silent 64)
      (λ e. ground arith) (omega arith)

-- Three periods that come to their end: one at the start of the ring, one after a restart, and one
-- like any other.
at_start : IsReady period (daemon 2 4096) (region 2) (silent 64) (silent 64)
at_start = record {
  head = ready.head;
  accepts = ready.accepts;
  aligned = record { periods = 64; number = 0; whole = refl; place = refl; before = omega arith };
  down₀ = refl;
  down₁ = refl;
  up₀ = refl;
  ports = λ i. omega arith;
  left = omega arith;
  right = omega arith;
}

after_restart : IsReady period (daemon 1 4288) (region 2) (silent 64) (silent 64)
after_restart = record {
  head = ready.head;
  accepts = ready.accepts;
  aligned = aligned;
  down₀ = refl;
  down₁ = refl;
  up₀ = refl;
  ports = λ i. omega arith;
  left = omega arith;
  right = omega arith;
}

abbrev Ends : ℕ → ℕ → Type 0
Ends last frame =
    (o : Processed) × (process_callback period (daemon last frame) (region 2) (silent 64, silent 64)
      ≡ some o)

ends_at_start : Ends 2 4096
ends_at_start =
    let (o, e, f) =
      process_callback_cycle period (daemon 2 4096) (region 2) (silent 64) (silent 64) refl
        at_start in
    (o, e)

ends_after_restart : Ends 1 4288
ends_after_restart =
    let (o, e, f) =
      process_callback_cycle period (daemon 1 4288) (region 2) (silent 64) (silent 64) refl
        after_restart in
    (o, e)

process_callback_beats_example :
    (heartbeat whole 9 ends_at_start.0.shm.daemon_alive device).0.device_is_alive ≡ true
process_callback_beats_example =
    process_callback_beats whole period (daemon 2 4096) (region 2) (silent 64, silent 64)
      ends_at_start.0 9 device ends_at_start.1 (omega arith) refl

process_callback-stamp_example :
    let s = (stamp whole device ends_at_start.0.shm).0 in
    (s.sample_time ≡ 4096) × (s.host_time ≡ 3000)
process_callback-stamp_example =
    process_callback-stamp whole period (daemon 2 4096) (region 2) (silent 64, silent 64)
      ends_at_start.0 device ends_at_start.1 refl refl (inr refl) refl (omega arith) refl

process_callback_restart_example :
    let s = (stamp whole device ends_after_restart.0.shm).0 in
    (s.sample_time ≡ 4096) × (s.host_time ≡ 2000) × (s.seed ≡ 2)
process_callback_restart_example =
    process_callback_restart whole period (daemon 1 4288) (region 2) (silent 64, silent 64)
      ends_after_restart.0 device ends_after_restart.1 refl (λ e. ground arith) refl refl
      (omega arith) refl
