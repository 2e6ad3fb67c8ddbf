-- ===== src/Ring/Offsets.antt =====
-- Where the cursor projections of RingProjector.hpp land.
use jack_router.Common.{ℕ, ◌+◌, ◌%◌, ◌^◌, ◌<◌, ◌≡◌, arith}
use jack_router.Ring.{RingProjector, send_offset, recv_offset}

abbrev pub ring_of : ℕ → RingProjector
ring_of cursor = record { ring_frames = 4096; frame_cursor = cursor }

-- The slot that the daemon reads in a cycle is `nframes` before the one that it writes, going round
-- the ring: also where the cursor is below `nframes` and the subtraction wraps.
pub recv_offset-send_offset :
    (cursor nframes : ℕ)
    → cursor < 2 ^ 64
    → nframes < 2 ^ 31
    → (recv_offset (ring_of cursor) nframes + nframes) % 4096 ≡ send_offset (ring_of cursor)
unfolding recv_offset send_offset
recv_offset-send_offset cursor nframes h k = omega arith

pub send_offset-lt : (cursor : ℕ) → send_offset (ring_of cursor) < 4096
unfolding send_offset
send_offset-lt cursor = omega arith

pub recv_offset-lt : (cursor nframes : ℕ) → recv_offset (ring_of cursor) nframes < 4096
unfolding recv_offset
recv_offset-lt cursor nframes = omega arith
