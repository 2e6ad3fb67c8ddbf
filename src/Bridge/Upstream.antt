-- ===== src/Bridge/Upstream.antt =====
-- From the DAW to JACK: what WriteOutputData puts into the ring, process_callback hands on.
use mathlib.Core.Path.{subst}
use jack_router.Common.{
  ℕ, ◌+◌, ◌*◌, ◌%◌, ◌≤◌, ◌<◌, ◌≡◌, ◌∙◌, arith, ◌&&◌, ltb, if◌then◌else◌, u64, some, inl, inr,
  Bool-cases, ltb→lt,
}
use jack_router.Common.Array.{Array, update, Filled}
use jack_router.Common.Float.{Float64}
use jack_router.Shm.{Shm, drv_status_started}
use jack_router.Device.{Device}
use jack_router.Device.Transfer.{write_output_data}
use jack_router.Device.Transfer.Circular.{behind}
use jack_router.Device.Transfer.Operations.{write_output_data_circular}
use jack_router.Ring.Copies.{Delivered}
use jack_router.Client.{Daemon, Period}
use jack_router.Daemon.{Processed, process_callback}
use jack_router.Daemon.Prepared.{cursor}
use jack_router.Daemon.Transport.{Aligned-recv, behind_cursor}
use jack_router.Daemon.Cycle.{IsReady, process_callback_cycle}

one_period_behind :
    (t n c : ℕ) → n ≤ 4096 → (t + n) % 4096 ≡ c % 4096 → behind_cursor n c ≡ t % 4096
one_period_behind t n c h e = omega arith

upstream_cell :
    (old ring buffer : Array) (t n j side : ℕ)
    → t % 4096 + n ≤ 4096
    → j < n
    → side < 2
    → ((k : ℕ)
        → ring.cell k ≡ (
            if ltb k 8192 && ltb (behind t k) (n * 2)
            then buffer.cell (behind t k)
            else old.cell k))
    → ring.cell ((t % 4096 + 0 + j) * 2 + side) ≡ buffer.cell (j * 2 + side)
upstream_cell old ring buffer t n j side room lt s f =
    let e : behind t ((t % 4096 + 0 + j) * 2 + side) ≡ j * 2 + side = omega arith in
    ground (arith, f ((t % 4096 + 0 + j) * 2 + side), e)

-- The first `n` samples of the port are one side of the frames in the buffer.
abbrev pub IsSide : ℕ → ℕ → Array → Array → Array → Type 0
IsSide side n buffer old port =
    (j : ℕ) → port.cell j ≡ (if ltb j n then buffer.cell (j * 2 + side) else old.cell j)

IsSide-of :
    (side n : ℕ) (buffer old port : Array) (value : ℕ → ℕ)
    → Filled old 0 n value port
    → ((j : ℕ) → j < n → value j ≡ buffer.cell (j * 2 + side))
    → IsSide side n buffer old port
IsSide-of side n buffer old port value f same j = elim (Bool-cases (ltb j n)) [
  | inl lt ↦ ground (arith, f.cells j, same j (ltb→lt j n lt))
  | inr ge ↦ ground (arith, f.cells j)
]

zero_side : (ring : Array) (o j : ℕ) → ring.cell ((o + 0 + j) * 2) ≡ ring.cell ((o + 0 + j) * 2 + 0)
zero_side ring o j = ground arith

Delivered-sides :
    (old ring buffer l r l' r' : Array) (t n : ℕ)
    → t % 4096 + n ≤ 4096
    → ((k : ℕ)
        → ring.cell k ≡ (
            if ltb k 8192 && ltb (behind t k) (n * 2)
            then buffer.cell (behind t k)
            else old.cell k))
    → Delivered ring (t % 4096) 0 n l r l' r'
    → IsSide 0 n buffer l l' × IsSide 1 n buffer r r'
Delivered-sides old ring buffer l r l' r' t n room f d = (
  IsSide-of 0 n buffer l l' _ d.left (λ j lt.
      zero_side ring (t % 4096) j ∙ upstream_cell old ring buffer t n j 0 room lt (omega arith) f),
  IsSide-of 1 n buffer r r' _ d.right
      (λ j lt. upstream_cell old ring buffer t n j 1 room lt (omega arith) f),
)

module _ (F : Float64) where
  open F use {Value, to_u64}

  -- JACK gets what the DAW played: the frames that the HAL wrote at a time one period behind the
  -- daemon's cursor, modulo the ring, come out of the two output ports, left and right, bit by bit, and
  -- that part of the ring is silent afterwards.
  pub hal_to_daemon :
      (p : Period) (d : Daemon) (m : Shm) (l r : Array) (time : Value) (buffer : Array)
      (dev : Device Value)
      → m.driver_status ≡ drv_status_started
      → IsReady p d m l r
      → (to_u64 time + p.nframes) % 4096 ≡ cursor d % 4096
      → dev.ring_buffer_frame_size ≡ 4096
      → p.nframes * 2 ≤ buffer.size
      → (m' : Shm) × (o : Processed) × (write_output_data F 0 p.nframes time buffer dev m ≡ some m')
        × (process_callback p d m' (l, r) ≡ some o)
        × IsSide 0 p.nframes buffer l o.out.0
        × IsSide 1 p.nframes buffer r o.out.1
        × Filled (m'.buf_up 0) (to_u64 time % 4096 * 2) (p.nframes * 2) (λ _. 0) (o.shm.buf_up 0)
  hal_to_daemon p d m l r time buffer dev started v at size room =
      let t = to_u64 time in
      let recv = Aligned-recv p.nframes (cursor d) v.aligned in
      let off = one_period_behind t p.nframes (cursor d) (omega (arith, recv)) at in
      let (ring, e, s, f) =
        write_output_data_circular F 0 p.nframes time buffer dev m size
          (record { ring_size = v.up₀; frames_fit = omega (arith, recv); buffer_fits = room }) in
      let m' : Shm = record m {
        buf_up = update m.buf_up 0 ring;
        write_frame_number = update m.write_frame_number 0 (u64 (t + p.nframes));
      } in
      let (o, g, i) = process_callback_cycle p d m' l r started (record {
        head = v.head;
        accepts = v.accepts;
        aligned = v.aligned;
        down₀ = v.down₀;
        down₁ = v.down₁;
        up₀ = s;
        ports = v.ports;
        left = v.left;
        right = v.right;
      }) in
      let (left, right) =
        Delivered-sides (m.buf_up 0) ring buffer l r o.out.0 o.out.1 t p.nframes (rw off at recv) f
          (subst (λ x. Delivered ring x 0 p.nframes l r o.out.0 o.out.1) off i.received) in
      let silent =
        subst (λ x. Filled ring (x * 2) (p.nframes * 2) (λ _. 0) (o.shm.buf_up 0)) off i.consumed in
      (m', o, e, g, left, right, silent)
