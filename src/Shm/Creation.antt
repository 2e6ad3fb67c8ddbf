-- ===== src/Shm/Creation.antt =====
-- Which region the driver ends up with: create_shm of shared/JackBridge.h.
use jack_router.Common.{
  ℕ, ◌≡◌, ◌≢◌, ◌⊎◌, arith, false, if◌then◌else◌, Option, none, some, Option-cases, inl, inr,
}
use jack_router.Shm.{Kernel, Answers, success, create_shm, jack_shmsize}

-- Whatever the system calls answer, `create_shm` leaves no descriptor open that was not open before.
pub open_fds-create_shm : (a : Answers) (k : Kernel) → (create_shm a k).1.open_fds ≡ k.open_fds
unfolding create_shm
open_fds-create_shm a k = ground arith

-- The size of the object before the run, 0 if there was none.
abbrev pub size_before : Option ℕ → ℕ
size_before none = 0
size_before (some n) = n

-- Where `create_shm` succeeds, the object has the right size, or it had another one before and neither
-- of the two calls of ftruncate worked: then it is a new object without a byte, if the old one could
-- be unlinked, and otherwise it has the size that it had.
pub object-create_shm :
    (a : Answers) (k : Kernel)
    → (create_shm a k).0 ≡ success
    → ((create_shm a k).1.object ≡ some jack_shmsize)
      ⊎ ((size_before k.object ≢ jack_shmsize)
          × (a.truncate_ok ≡ false)
          × (a.retruncate_ok ≡ false)
          × ((create_shm a k).1.object ≡ some (if a.unlink_ok then 0 else size_before k.object)))
unfolding create_shm
object-create_shm a k h = elim (Option-cases k.object) [
  | inl e ↦ ground arith
  | inr (n, e) ↦ ground arith
]
