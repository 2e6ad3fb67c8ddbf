-- ===== src/Ring.antt =====
-- The daemon's side of the sample rings: daemon/RingProjector.hpp and daemon/RingCopy.hpp.
pub mod Offsets
pub mod Copies
pub mod RoundTrip
use jack_router.Common.{ℕ, zero, suc, ◌+◌, ◌-◌, ◌*◌, ◌%◌, ◌^◌, u32, u64, Option, some, ◌>>=◌}
use jack_router.Common.Array.{Array, load, store}

-- `RingProjector`
pub record RingProjector : Type 0 where
  pub ring_frames : ℕ  -- uint32_t
  pub frame_cursor : ℕ  -- uint64_t

unfoldable pub send_offset : RingProjector → ℕ
send_offset p = u32 (p.frame_cursor % p.ring_frames)

-- The subtraction of `uint64_t` wraps.
unfoldable pub recv_offset : RingProjector → ℕ → ℕ
recv_offset p nframes = u32 (u64 (p.frame_cursor + 2 ^ 64 - u64 nframes) % p.ring_frames)

-- `(offset + i) * 2 + side`, in `uint32_t`
abbrev pub slot : ℕ → ℕ → ℕ → ℕ
slot offset i side = u32 (u32 (u32 (offset + i) * 2) + side)

-- The loops count the rounds left; `i` counts up.
unfoldable pub write_from : Array → ℕ → Array → Array → ℕ → ℕ → Option Array
unfolding load store
write_from ring offset in_l in_r zero i = some ring
write_from ring offset in_l in_r (suc n) i = do
  l ← load in_l i
  ring' ← store ring (slot offset i 0) l
  r ← load in_r i
  ring'' ← store ring' (slot offset i 1) r
  write_from ring'' offset in_l in_r n (i + 1)

unfoldable pub ring_write_stereo_interleaved : Array → ℕ → Array → Array → ℕ → Option Array
unfolding write_from
ring_write_stereo_interleaved ring offset in_l in_r nframes =
    write_from ring offset in_l in_r nframes 0

unfoldable pub read_from : Array → ℕ → Array → Array → ℕ → ℕ → Option (Array × Array)
unfolding load store
read_from ring offset out_l out_r zero i = some (out_l, out_r)
read_from ring offset out_l out_r (suc n) i = do
  l ← load ring (slot offset i 0)
  out_l' ← store out_l i l
  r ← load ring (slot offset i 1)
  out_r' ← store out_r i r
  read_from ring offset out_l' out_r' n (i + 1)

unfoldable pub ring_read_stereo_interleaved : Array → ℕ → Array → Array → ℕ → Option (Array × Array)
unfolding read_from
ring_read_stereo_interleaved ring offset out_l out_r nframes =
    read_from ring offset out_l out_r nframes 0

unfoldable pub consume_from : Array → ℕ → Array → Array → ℕ → ℕ → Option (Array × Array × Array)
unfolding load store
consume_from ring offset out_l out_r zero i = some (ring, out_l, out_r)
consume_from ring offset out_l out_r (suc n) i = do
  l ← load ring (slot offset i 0)
  out_l' ← store out_l i l
  r ← load ring (slot offset i 1)
  out_r' ← store out_r i r
  ring' ← store ring (slot offset i 0) 0
  ring'' ← store ring' (slot offset i 1) 0
  consume_from ring'' offset out_l' out_r' n (i + 1)

unfoldable pub ring_consume_stereo_interleaved :
    Array → ℕ → Array → Array → ℕ → Option (Array × Array × Array)
unfolding consume_from
ring_consume_stereo_interleaved ring offset out_l out_r nframes =
    consume_from ring offset out_l out_r nframes 0
