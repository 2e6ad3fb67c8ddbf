-- ===== src/Device/Transfer/Operations.antt =====
-- ReadInputData and WriteOutputData as a whole.
use jack_router.Common.{
  ℕ, ◌+◌, ◌*◌, ◌%◌, ◌≤◌, ◌≡◌, arith, ◌&&◌, ltb, if◌then◌else◌, u64, some, inl, inr, Bool-cases,
}
use jack_router.Common.Array.{Array, update, bzero, bzero-Filled}
use jack_router.Common.Float.{Float64}
use jack_router.Shm.{Shm}
use jack_router.Device.{Device}
use jack_router.Device.Transfer.{read_input_data, write_output_data, samples}
use jack_router.Device.Transfer.Circular.{IsTransfer, behind, copy_out_circular, copy_in_circular}

module _ (F : Float64) where
  open F use {Value, to_u64}

  silence :
      (out : Array) (n : ℕ)
      → n ≤ 4096
      → n * 2 ≤ out.size
      → (out' : Array) × (bzero out 0 (samples n) ≡ some out')
        × ((k : ℕ) → out'.cell k ≡ (if ltb k (n * 2) then 0 else out.cell k))
  silence out n h b =
      let (out', e, f) = bzero-Filled out 0 (samples n) (omega arith) in
      (out', e, λ k. ground (arith, f.cells k))

  -- `ReadInputData` gives the DAW the samples round the downstream ring from the cycle's input time
  -- on, or silence if the device is dead, and publishes the time at which it stopped reading; nothing
  -- else of the region changes, nor does the buffer behind the frames.
  pub read_input_data_circular :
      (s n : ℕ) (time : Value) (out : Array) (d : Device Value) (m : Shm)
      → d.ring_buffer_frame_size ≡ 4096
      → IsTransfer (m.buf_down s) out n
      → (out' : Array) × (read_input_data F s n time out d m
          ≡ some (
            out',
            record m { read_frame_number = update m.read_frame_number s (u64 (to_u64 time + n)) },
          ))
        × ((k : ℕ)
            → out'.cell k ≡ (
                if ltb k (n * 2)
                then if d.device_is_alive
                  then (m.buf_down s).cell ((to_u64 time * 2 + k) % 8192)
                  else 0
                else out.cell k))
  unfolding read_input_data
  read_input_data_circular s n time out d m z v = elim (Bool-cases d.device_is_alive) [
    | inl alive ↦
        let (out', e, f) = copy_out_circular (m.buf_down s) out (to_u64 time) n v in
        (out', rw (z, alive, read_input_data, e), λ k. rw alive (f k))
    | inr dead ↦
        let (out', e, f) = silence out n v.frames_fit v.buffer_fits in
        (out', rw (z, dead, read_input_data, e), λ k. rw dead (f k))
  ]

  -- `WriteOutputData` puts the DAW's frames round the upstream ring from the cycle's output time on,
  -- and publishes the time at which it stopped writing; the other rings and registers keep theirs.
  pub write_output_data_circular :
      (s n : ℕ) (time : Value) (buffer : Array) (d : Device Value) (m : Shm)
      → d.ring_buffer_frame_size ≡ 4096
      → IsTransfer (m.buf_up s) buffer n
      → (ring : Array) × (write_output_data F s n time buffer d m
          ≡ some (record m {
            buf_up = update m.buf_up s ring;
            write_frame_number = update m.write_frame_number s (u64 (to_u64 time + n));
          }))
        × (ring.size ≡ 8192)
        × ((k : ℕ)
            → ring.cell k ≡ (
                if ltb k 8192 && ltb (behind (to_u64 time) k) (n * 2)
                then buffer.cell (behind (to_u64 time) k)
                else (m.buf_up s).cell k))
  unfolding write_output_data
  write_output_data_circular s n time buffer d m z v =
      let (ring, e, size, f) = copy_in_circular (m.buf_up s) buffer (to_u64 time) n v in
      (ring, rw (z, write_output_data, e), omega (arith, size, v.ring_size), f)
