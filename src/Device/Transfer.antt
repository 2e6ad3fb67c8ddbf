-- ===== src/Device/Transfer.antt =====
-- SA_Device::DoIOOperation: how the HAL copies samples out of and into the rings.
pub mod Circular
pub mod Operations
use jack_router.Common.{
  ℕ, ◌+◌, ◌-◌, ◌*◌, ◌/◌, ◌%◌, ◌^◌, Bool, true, false, ◌==◌, ltb, if◌then◌else◌, u32, u64, Option,
  none, some, ◌>>=◌,
}
use jack_router.Common.Array.{Array, update, memcpy, bzero}
use jack_router.Common.Float.{Float64}
use jack_router.Shm.{Shm}
use jack_router.Device.{Device, get_stream_id}

-- The operations of kAudioServerPlugInIOOperation…; `other` is any other number.
pub data Operation : Type 0 where
  thread cycle read_input convert_input process_input process_output : Operation
  mix_output process_mix convert_mix write_mix other : Operation

-- `WillDoIOOperation`: whether the driver does it, and in place.
unfoldable pub will_do_io_operation : Operation → Bool × Bool
will_do_io_operation read_input = (true, true)
will_do_io_operation write_mix = (true, true)
will_do_io_operation o = (false, true)

-- How many samples `frames * 8` bytes are, in `UInt32`.
abbrev pub samples : ℕ → ℕ
samples frames = u32 (frames * 8) / 4

-- The frames up to the end of the ring, and those that go on at its start.
pub record Spans : Type 0 where
  pub offset : ℕ
  pub first : ℕ
  pub second : ℕ

abbrev pub spans : ℕ → ℕ → ℕ → Spans
spans ring_frames time n =
    let offset = u32 (time % ring_frames) in
    let first = u32 (ring_frames + 2 ^ 32 - offset) in
    if ltb ring_frames (u32 (offset + n))
    then record { offset = offset; first = first; second = u32 (n + 2 ^ 32 - first) }
    else record { offset = offset; first = n; second = 0 }

-- The second copy, if there is anything left.
abbrev copy_rest : Array → ℕ → Array → ℕ → ℕ → Option Array
copy_rest dst d src s second =
    if ltb 0 second then memcpy dst d src s (samples second) else some dst

-- Out of the ring into the buffer.
unfoldable pub copy_out : Array → Array → Spans → Option Array
unfolding memcpy
copy_out ring out s = do
  out' ← memcpy out 0 ring (u32 (s.offset * 2)) (samples s.first)
  copy_rest out' (samples s.first) ring 0 s.second

-- Out of the buffer into the ring.
unfoldable pub copy_in : Array → Array → Spans → Option Array
unfolding memcpy
copy_in ring buffer s = do
  ring' ← memcpy ring (u32 (s.offset * 2)) buffer 0 (samples s.first)
  copy_rest ring' 0 buffer (samples s.first) s.second

module _ (F : Float64) where
  open F use {Value, to_u64}

  -- `none` where the source divides by zero, or copies outside a buffer.
  unfoldable pub read_input_data : ℕ → ℕ → Value → Array → Device Value → Shm → Option (Array × Shm)
  unfolding copy_out bzero
  read_input_data stream_id n sample_time out d m =
      if d.ring_buffer_frame_size == 0 then none else (do
        let s = spans d.ring_buffer_frame_size (to_u64 sample_time) n
        out' ←
            if d.device_is_alive
            then copy_out (m.buf_down stream_id) out s
            else bzero out 0 (samples n)
        some (
          out',
          record m {
            read_frame_number = update m.read_frame_number stream_id (u64 (to_u64 sample_time + n));
          },
        ))

  unfoldable pub write_output_data : ℕ → ℕ → Value → Array → Device Value → Shm → Option Shm
  unfolding copy_in
  write_output_data stream_id n sample_time buffer d m =
      if d.ring_buffer_frame_size == 0 then none else (do
        ring ←
            copy_in (m.buf_up stream_id) buffer
              (spans d.ring_buffer_frame_size (to_u64 sample_time) n)
        some (record m {
          buf_up = update m.buf_up stream_id ring;
          write_frame_number = update m.write_frame_number stream_id (u64 (to_u64 sample_time + n));
        }))

  -- The main buffer, and the region; the times are those of the cycle info.
  unfoldable pub do_io_operation :
      ℕ → Operation → ℕ → Value → Value → Array → Device Value → Shm → Option (Array × Shm)
  unfolding read_input_data write_output_data get_stream_id
  do_io_operation stream_object_id read_input n input_time output_time buffer d m =
      read_input_data (get_stream_id d stream_object_id) n input_time buffer d m
  do_io_operation stream_object_id write_mix n input_time output_time buffer d m = do
    m' ← write_output_data (get_stream_id d stream_object_id) n output_time buffer d m
    some (buffer, m')
  do_io_operation stream_object_id o n input_time output_time buffer d m = some (buffer, m)
