-- ===== src/Seqlock/Publication.antt =====
-- The stores one by one amount to the publication as a whole.
use jack_router.Common.{ℕ, zero, suc, ◌≡◌, refl}
use jack_router.Shm.{Shm}
use jack_router.Device.Cycle.{Anchor, publish}
use jack_router.Seqlock.{Writer, idle, begin, writer_step}

pub writer_steps : ℕ → Writer × Shm → Writer × Shm
writer_steps zero s = s
writer_steps (suc n) (w, m) = writer_steps n (writer_step w m)

-- Eight steps of the writer, undisturbed, are the `publish` of BeginIOOperation.
pub writer_steps-publish :
    (a : Anchor) (m : Shm) → writer_steps 8 (begin a, m) ≡ (idle, publish a m)
unfolding writer_steps writer_step publish
writer_steps-publish a m = refl
