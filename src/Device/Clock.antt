-- ===== src/Device/Clock.antt =====
-- SA_Device::GetZeroTimeStamp: the watch over the daemon's heartbeat, and the time stamps.
use jack_router.Common.{
  ℕ, ◌+◌, ◌-◌, ◌*◌, ◌^◌, Bool, true, false, not, ◌&&◌, ◌==◌, ltb, leb, if◌then◌else◌, u64, List, [],
  ◌∷◌,
}
use jack_router.Common.Float.{Float64}
use jack_router.Shm.{Shm}
use jack_router.Device.{Device}

-- `Host_PropertiesChanged` for kAudioDevicePropertyDeviceIsAlive.
pub data Notice : Type 0 where
  is_alive_changed : Notice

module _ (F : Float64) where
  open F use {Value, of_u64, to_u64, add, mul, positive}

  abbrev pub ticks_per_ring_buffer : Device Value → Value
  ticks_per_ring_buffer d = mul d.host_ticks_per_frame (of_u64 d.ring_buffer_frame_size)

  -- 5.0 ring buffers of host ticks
  abbrev pub threshold : Device Value → ℕ
  threshold d = to_u64 (mul (of_u64 5) (ticks_per_ring_buffer d))

  -- The guards before the check for staleness.
  abbrev pub is_watching : Device Value → Bool
  is_watching d =
      d.device_is_alive
      && ltb 0 d.ring_buffer_frame_size
      && not (d.last_daemon_alive_host_time == 0)
      && positive (ticks_per_ring_buffer d)

  -- `now - mLastDaemonAliveHostTime > threshold`, in `uint64_t`
  abbrev pub is_stale : ℕ → Device Value → Bool
  is_stale now d = ltb (threshold d) (u64 (now + 2 ^ 64 - d.last_daemon_alive_host_time))

  unfoldable pub heartbeat : ℕ → ℕ → Device Value → Device Value × List Notice
  heartbeat now alive d =
      if alive == d.last_daemon_alive
      then (if is_watching d && is_stale now d
          then (record d { device_is_alive = false }, is_alive_changed ∷ [])
          else (d, []))
      else (
        record d {
          last_daemon_alive = alive;
          last_daemon_alive_host_time = now;
          device_is_alive = true;
        },
        (if d.device_is_alive then [] else is_alive_changed ∷ []),
      )

  abbrev next_host_time : Device Value → ℕ
  next_host_time d = u64 (
      d.anchor_host_time
      + to_u64 (mul (of_u64 (u64 (d.number_time_stamps + 1))) (ticks_per_ring_buffer d)))

  -- `later` is the second reading of the host clock.
  unfoldable pub advance : ℕ → Device Value → Device Value
  advance later d =
      if leb (next_host_time d) later
      then record d { number_time_stamps = u64 (d.number_time_stamps + 1) }
      else d

  pub record Stamp : Type 0 where
    pub sample_time : Value
    pub host_time : ℕ
    pub seed : ℕ

  -- What the driver's own clock says: `anchor + number * ticks`, truncated.
  abbrev own_host_time : Device Value → ℕ
  own_host_time d = to_u64 (
      add (of_u64 d.anchor_host_time) (mul (of_u64 d.number_time_stamps) (ticks_per_ring_buffer d)))

  unfoldable pub stamp : Device Value → Shm → Stamp × Shm
  stamp d m =
      if m.sync_mode == 1
      then (
        record {
          sample_time = of_u64 (u64 (m.number_time_stamps * d.ring_buffer_frame_size));
          host_time = m.zero_host_time;
          seed = m.seed;
        },
        m,
      )
      else (
        record {
          sample_time = of_u64 (u64 (d.number_time_stamps * d.ring_buffer_frame_size));
          host_time = own_host_time d;
          seed = m.seed;
        },
        record m { number_time_stamps = d.number_time_stamps; zero_host_time = own_host_time d },
      )

  unfoldable pub get_zero_time_stamp :
      ℕ → ℕ → Device Value → Shm → Stamp × Device Value × Shm × List Notice
  unfolding heartbeat advance stamp
  get_zero_time_stamp now later d m =
      let (watched, notices) = heartbeat now m.daemon_alive d in
      let d' = advance later watched in let (s, m') = stamp d' m in (s, d', m', notices)
