-- ===== src/Tests/Rings.antt =====
-- The rings, the region and the seqlock, at concrete inputs.
use jack_router.Common.{ℕ, zero, suc, ◌+◌, ◌≡◌, ◌≢◌, ◌⊎◌, ◌≤◌, refl, arith, some, false}
use jack_router.Shm.{Shm, Register, address, strbuf_up, Answers, Kernel, create_shm, jack_shmsize}
use jack_router.Shm.Layout.{registers_disjoint}
use jack_router.Shm.Creation.{size_before, object-create_shm}
use jack_router.Device.Cycle.{Anchor}
use jack_router.Seqlock.{
  begin, writer_step, System, cycle, writes, reads, start, Reach, here, next, reader_step, remember,
}
use jack_router.Seqlock.Snapshot.{accepted_head}
use jack_router.Tests.Data.{region, answers, kernel}

registers_disjoint_example :
    ((address Register.hal_sample_rate + 8 ≤ address (Register.read_frame_number 1))
      ⊎ (address (Register.read_frame_number 1) + 8 ≤ address Register.hal_sample_rate))
    × (address Register.hal_sample_rate + 8 ≤ strbuf_up 0)
registers_disjoint_example =
    registers_disjoint Register.hal_sample_rate (Register.read_frame_number 1) tt (omega arith)
      (λ e. ground arith)

-- An object of another size that can be neither truncated nor unlinked.
abbrev stuck : Answers
stuck = record answers { truncate_ok = false; unlink_ok = false; retruncate_ok = false }

abbrev small : Kernel
small = record kernel { object = some 4096 }

object-create_shm_example :
    ((create_shm stuck small).1.object ≡ some jack_shmsize)
    ⊎ ((size_before small.object ≢ jack_shmsize)
        × (stuck.truncate_ok ≡ false)
        × (stuck.retruncate_ok ≡ false)
        × ((create_shm stuck small).1.object ≡ some 4096))
unfolding create_shm
object-create_shm_example = object-create_shm stuck small refl

abbrev anchor : Anchor
anchor = record {
  host_time = 1;
  sample_time = 2;
  read_head = 300;
  write_head = 4;
  n_frames = 64;
  sample_rate = 48000;
}

-- The HAL publishes an anchor, and the daemon takes a snapshot of it.
published : ℕ → System → System
published zero s = s
published (suc n) s = published n (record s {
  shm = (writer_step s.writer s.shm).1;
  writer = (writer_step s.writer s.shm).0;
  heads = remember s.writer s.heads;
})

published_reached : {m : Shm} (n : ℕ) (s : System) → Reach m s → Reach m (published n s)
unfolding published
published_reached zero s r = r
published_reached (suc n) s r = published_reached n _ (next r (writes s))

observed : ℕ → System → System
observed zero s = s
observed (suc n) s = observed n (record s { reader = reader_step s.reader s.shm })

observed_reached : {m : Shm} (n : ℕ) (s : System) → Reach m s → Reach m (observed n s)
unfolding observed
observed_reached zero s r = r
observed_reached (suc n) s r = observed_reached n _ (next r (reads s))

abbrev cycle_begun : System
cycle_begun = record (start (region 2)) { writer = begin anchor }

accepted_head_example : 300 ≡ (observed 3 (published 8 cycle_begun)).heads 6
unfolding reader_step writer_step observed published
accepted_head_example =
    accepted_head 6 300 refl
      (observed_reached 3 (published 8 cycle_begun) (
        published_reached 8 cycle_begun
          (next here (cycle (start (region 2)) anchor refl (omega arith)))))
      refl
