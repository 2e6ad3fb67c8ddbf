-- ===== src/Bridge/Downstream.antt =====
-- From JACK to the DAW: what process_callback sends, ReadInputData delivers.
use mathlib.Core.Path.{subst}
use jack_router.Common.{
  ℕ, ◌+◌, ◌*◌, ◌%◌, ◌≤◌, ◌<◌, ◌≡◌, ◌∙◌, arith, true, ltb, if◌then◌else◌, u64, some, inl, inr,
  Bool-cases, ltb→lt,
}
use jack_router.Common.Array.{Array, update, Filled}
use jack_router.Common.Float.{Float64}
use jack_router.Shm.{Shm, drv_status_started}
use jack_router.Ring.Copies.{interleave}
use jack_router.Device.{Device}
use jack_router.Device.Transfer.{read_input_data}
use jack_router.Device.Transfer.Operations.{read_input_data_circular}
use jack_router.Client.{Daemon, Period}
use jack_router.Daemon.{Processed, process_callback}
use jack_router.Daemon.Prepared.{cursor}
use jack_router.Daemon.Transport.{Aligned-room}
use jack_router.Daemon.Cycle.{IsReady, process_callback_cycle}

downstream_cell :
    (old ring l r : Array) (t n k : ℕ)
    → t % 4096 + n ≤ 4096
    → k < n * 2
    → Filled old (t % 4096 * 2) (n * 2) (interleave l r 0) ring
    → ring.cell ((t * 2 + k) % 8192) ≡ interleave l r 0 k
downstream_cell old ring l r t n k room h f =
    let e : (t * 2 + k) % 8192 ≡ t % 4096 * 2 + k = omega arith in
    ground (arith, f.cells (t % 4096 * 2 + k), e)

-- The region once the HAL has read up to frame `t`.
abbrev pub read_until : Shm → ℕ → Shm
read_until m t = record m { read_frame_number = update m.read_frame_number 0 (u64 t) }

module _ (F : Float64) where
  open F use {Value, to_u64}

  -- The DAW gets what JACK played: a read of the first input stream, at the time where the daemon's
  -- period was, delivers the two JACK ports' samples of that period, interleaved, in order and bit by
  -- bit; so the copies on both sides agree about where a time lies in the ring.
  pub daemon_to_hal :
      (p : Period) (d : Daemon) (m : Shm) (l r : Array) (time : Value) (out : Array)
      (dev : Device Value)
      → m.driver_status ≡ drv_status_started
      → IsReady p d m l r
      → to_u64 time ≡ cursor d
      → dev.ring_buffer_frame_size ≡ 4096
      → dev.device_is_alive ≡ true
      → p.nframes * 2 ≤ out.size
      → (o : Processed) × (out' : Array) × (process_callback p d m (l, r) ≡ some o)
        × (read_input_data F 0 p.nframes time out dev o.shm
            ≡ some (out', read_until o.shm (cursor d + p.nframes)))
        × ((k : ℕ)
            → out'.cell k ≡ (
                if ltb k (p.nframes * 2)
                then interleave (p.audio_in 0) (p.audio_in 1) 0 k
                else out.cell k))
  daemon_to_hal p d m l r time out dev started v at size alive room =
      let (o, e, f) = process_callback_cycle p d m l r started v in
      let ring_size : (o.shm.buf_down 0).size ≡ 8192 = f.sent₀.same_size ∙ v.down₀ in
      let fits = Aligned-room p.nframes (cursor d) v.aligned in
      let (out', g, c) =
        read_input_data_circular F 0 p.nframes time out dev o.shm size (record {
          ring_size = ring_size;
          frames_fit = omega (arith, fits);
          buffer_fits = room;
        }) in
      (
        o,
        out',
        e,
        subst
            (λ t.
              read_input_data F 0 p.nframes time out dev o.shm
              ≡ some (out', read_until o.shm (t + p.nframes)))
            at g,
        λ k. elim (Bool-cases (ltb k (p.nframes * 2))) [
          | inl lt ↦
              let x =
                downstream_cell (m.buf_down 0) (o.shm.buf_down 0) (p.audio_in 0) (p.audio_in 1)
                  (cursor d) p.nframes k fits (ltb→lt _ _ lt) f.sent₀ in
              ground (arith, c k, alive, at, x)
          | inr ge ↦ ground (arith, c k)
        ],
      )
