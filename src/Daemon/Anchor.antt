-- ===== src/Daemon/Anchor.antt =====
-- What the HAL makes of the registers that process_callback writes: the clock handed over at a time
-- stamp and at a restart, and the heartbeat.
use jack_router.Common.{
  ℕ, ◌+◌, ◌-◌, ◌*◌, ◌/◌, ◌%◌, ◌^◌, ◌<◌, ◌≡◌, ◌≢◌, ◌⊎◌, refl, ◌∙◌, arith, true, false, ◌==◌,
  if◌then◌else◌, u64, some, Always-some,
}
use jack_router.Common.Array.{Array}
use jack_router.Common.Float.{Float64}
use jack_router.Shm.{Shm, drv_status_started}
use jack_router.Device.{Device}
use jack_router.Device.Clock.{stamp, heartbeat}
use jack_router.Client.{Daemon, Period}
use jack_router.Daemon.{Processed, process_callback, reanchor}
use jack_router.Daemon.Prepared.{cursor, cursor_active}
use jack_router.Daemon.Registers.{process-IsMarked, beats, beating}

reanchor_sync : (p : Period) (d : Daemon) (m : Shm) → (reanchor p d m).sync_mode ≡ m.sync_mode
unfolding reanchor
reanchor_sync p d m = ground arith

round_time :
    (number size t : ℕ)
    → size ≡ 4096
    → number ≡ t / 4096
    → t < 2 ^ 64
    → u64 (number * size) ≡ t - t % 4096
round_time number size t e f h = rw (e, f) (omega arith)

module _ (F : Float64) where
  open F use {Value, of_u64}

  synced_stamp :
      (dev : Device Value) (m : Shm) (t : ℕ)
      → m.sync_mode ≡ 1
      → u64 (m.number_time_stamps * dev.ring_buffer_frame_size) ≡ t
      → let s = (stamp F dev m).0 in
        (s.sample_time ≡ of_u64 t) × (s.host_time ≡ m.zero_host_time) × (s.seed ≡ m.seed)
  unfolding stamp
  synced_stamp dev m t e f = rw (e, f) (refl, refl, refl)

  -- Every call of process_callback that comes to its end is a sign of life: the next poll of a HAL
  -- that knew the counter from before the call finds the daemon alive, running or idle.
  pub process_callback_beats :
      (p : Period) (d : Daemon) (m : Shm) (out : Array × Array) (o : Processed) (now : ℕ)
      (dev : Device Value)
      → process_callback p d m out ≡ some o
      → m.daemon_alive < 2 ^ 64
      → dev.last_daemon_alive ≡ m.daemon_alive
      → (heartbeat F now o.shm.daemon_alive dev).0.device_is_alive ≡ true
  unfolding heartbeat
  process_callback_beats p d m out o now dev e small last =
      let b = Always-some _ (beats p d m out) e in ground (arith, b, small, last)

  -- A period that starts at a multiple of 4096 frames hands the clock over: the zero time stamp of the
  -- HAL is then the daemon's frame and the host time of the period's start, on the first period of a
  -- session as on a later one.
  pub process_callback-stamp :
      (p : Period) (d : Daemon) (m : Shm) (out : Array × Array) (o : Processed) (dev : Device Value)
      → process_callback p d m out ≡ some o
      → m.driver_status ≡ drv_status_started
      → d.is_sync_mode ≡ true
      → (d.is_active ≡ false) ⊎ (m.sync_mode ≡ 1)
      → cursor d % 4096 ≡ 0
      → cursor d < 2 ^ 64
      → dev.ring_buffer_frame_size ≡ 4096
      → let s = (stamp F dev o.shm).0 in
        (s.sample_time ≡ of_u64 (cursor d)) × (s.host_time ≡ p.anchor_time)
  process_callback-stamp p d m out o dev e started mode synced round small size =
      let i = Always-some _ (process-IsMarked p d m out started) e in
      let sync : o.shm.sync_mode ≡ 1 =
        ground (arith, i.sync, mode, synced, reanchor_sync p d (beating m)) in
      let number : o.shm.number_time_stamps ≡ cursor d / 4096 = ground (arith, i.number, round) in
      let host : o.shm.zero_host_time ≡ p.anchor_time = ground (arith, i.host_time, round) in
      let t =
        round_time o.shm.number_time_stamps dev.ring_buffer_frame_size (cursor d) size number
          small in
      let (x, y, z) = synced_stamp dev o.shm (cursor d) sync (t ∙ omega (arith, round)) in
      (x, y ∙ host)

  -- The first period after a restart of the HAL's IO gives the HAL a new time line, by one seed, whose
  -- zero is the daemon's frame rounded down to a multiple of 4096: the restart time stands for that
  -- frame, unless the period starts just there and stamps it with its own start.
  pub process_callback_restart :
      (p : Period) (d : Daemon) (m : Shm) (out : Array × Array) (o : Processed) (dev : Device Value)
      → process_callback p d m out ≡ some o
      → m.driver_status ≡ drv_status_started
      → d.last_driver_status ≢ drv_status_started
      → d.is_active ≡ true
      → m.sync_mode ≡ 1
      → d.frame_number < 2 ^ 64
      → dev.ring_buffer_frame_size ≡ 4096
      → let s = (stamp F dev o.shm).0 in
        (s.sample_time ≡ of_u64 (d.frame_number - d.frame_number % 4096))
        × (s.host_time ≡ (if d.frame_number % 4096 == 0 then p.anchor_time else p.restart_time))
        × (s.seed ≡ u64 (m.seed + 1))
  unfolding reanchor
  process_callback_restart p d m out o dev e started last active synced small size =
      let i = Always-some _ (process-IsMarked p d m out started) e in
      let at : cursor d ≡ d.frame_number = cursor_active d active in
      let sync : o.shm.sync_mode ≡ 1 =
        ground (arith, i.sync, active, synced, reanchor_sync p d (beating m)) in
      let number : o.shm.number_time_stamps ≡ d.frame_number / 4096 =
        ground (arith, i.number, at, started, last) in
      let host : o.shm.zero_host_time
          ≡ (if d.frame_number % 4096 == 0 then p.anchor_time else p.restart_time) =
        ground (arith, i.host_time, at, started, last) in
      let seed : o.shm.seed ≡ u64 (m.seed + 1) = ground (arith, i.seed, active, started, last) in
      let t =
        round_time o.shm.number_time_stamps dev.ring_buffer_frame_size d.frame_number size number
          small in
      let (x, y, z) = synced_stamp dev o.shm _ sync t in (x, y ∙ host, z ∙ seed)
