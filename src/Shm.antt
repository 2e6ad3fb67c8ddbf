-- ===== src/Shm.antt =====
-- The shared memory region of shared/JackBridge.h: its layout, its creation, and the handshake.
pub mod Layout
pub mod Creation
pub mod Handshake
use jack_router.Common.{
  ℕ, ◌+◌, ◌*◌, ◌/◌, ◌-◌, Bool, true, false, ◌==◌, if◌then◌else◌, Option, none, some,
}
use jack_router.Common.Array.{Array}

abbrev pub protocol_version : ℕ
protocol_version = 5

abbrev pub audio_sample_size : ℕ
audio_sample_size = 4

abbrev pub num_input_streams : ℕ
num_input_streams = 2

abbrev pub num_output_streams : ℕ
num_output_streams = 1

abbrev pub max_streams : ℕ
max_streams = 2

abbrev pub strbufsz : ℕ
strbufsz = 0x8000

abbrev pub strbufnum : ℕ
strbufnum = strbufsz / audio_sample_size

abbrev pub regsmap_size : ℕ
regsmap_size = 0x10000 * max_streams + 0x10000

abbrev pub jack_shmsize : ℕ
jack_shmsize = regsmap_size * 1

abbrev pub strbuf_up : ℕ → ℕ
strbuf_up i = 0x10000 * i + 0x10000

abbrev pub strbuf_down : ℕ → ℕ
strbuf_down i = 0x10000 * i + 0x18000

-- The values of the driver status.
abbrev pub drv_status_init : ℕ
drv_status_init = 0

abbrev pub drv_status_active : ℕ
drv_status_active = 1

abbrev pub drv_status_started : ℕ
drv_status_started = 2

-- The region as both processes see it: the atomic registers, and the sample rings of each stream.
pub record Shm : Type 0 where
  pub number_time_stamps : ℕ
  pub zero_host_time : ℕ
  pub seed : ℕ
  pub sync_mode : ℕ
  pub buffer_size : ℕ
  pub driver_status : ℕ
  pub version : ℕ
  pub daemon_alive : ℕ
  pub hal_anchor_seq : ℕ
  pub hal_anchor_host_time : ℕ
  pub hal_anchor_sample_time : ℕ
  pub hal_input_read_head : ℕ
  pub hal_output_write_head : ℕ
  pub hal_n_frames : ℕ
  pub hal_sample_rate : ℕ
  pub read_frame_number : ℕ → ℕ
  pub write_frame_number : ℕ → ℕ
  pub buf_up : ℕ → Array
  pub buf_down : ℕ → Array

-- `attach_shm`: where each register lies from the base of the mapping on.
pub data Register : Type 0 where
  number_time_stamps zero_host_time seed sync_mode buffer_size : Register
  driver_status version daemon_alive hal_anchor_seq hal_anchor_host_time : Register
  hal_anchor_sample_time hal_input_read_head hal_output_write_head : Register
  hal_n_frames hal_sample_rate : Register
  read_frame_number : ℕ → Register
  write_frame_number : ℕ → Register

pub address : Register → ℕ
address Register.number_time_stamps = 0x100
address Register.zero_host_time = 0x108
address Register.seed = 0x110
address Register.sync_mode = 0x118
address Register.buffer_size = 0x120
address Register.driver_status = 0x128
address Register.version = 0x130
address Register.daemon_alive = 0x138
address Register.hal_anchor_seq = 0x140
address Register.hal_anchor_host_time = 0x148
address Register.hal_anchor_sample_time = 0x150
address Register.hal_input_read_head = 0x158
address Register.hal_output_write_head = 0x160
address Register.hal_n_frames = 0x168
address Register.hal_sample_rate = 0x170
address (Register.read_frame_number i) = 0x180 + i * 0x10
address (Register.write_frame_number i) = 0x188 + i * 0x10

-- `check_protocol_version`: the verdict, and the region afterwards.
unfoldable pub check_protocol_version : Shm → Bool × Shm
check_protocol_version m =
    if m.version == 0
    then (true, record m { version = protocol_version })
    else (m.version == protocol_version, m)

-- What the kernel keeps of the region: the size of the shared memory object, if there is one, and
-- how many descriptors this process has open on it.
pub record Kernel : Type 0 where
  pub object : Option ℕ
  pub open_fds : ℕ

-- How the system calls of one run answer: `fstat` fails, or gives the object's size.
pub record Answers : Type 0 where
  pub open_ok : Bool
  pub fstat_ok : Bool
  pub truncate_ok : Bool
  pub unlink_ok : Bool
  pub reopen_ok : Bool
  pub retruncate_ok : Bool
  pub mmap_ok : Bool

pub data Rc : Type 0 where
  success failure : Rc

-- `shm_open` with `O_CREAT`: a new object has no bytes.
abbrev created : Option ℕ → ℕ
created none = 0
created (some n) = n

abbrev opened : Kernel → Kernel
opened k = record { object = some (created k.object); open_fds = k.open_fds + 1 }

abbrev closed : Kernel → Kernel
closed k = record k { open_fds = k.open_fds - 1 }

abbrev truncated : Kernel → Kernel
truncated k = record k { object = some jack_shmsize }

-- `shm_unlink`, whose answer is not looked at.
abbrev unlinked : Answers → Kernel → Kernel
unlinked a k = if a.unlink_ok then record k { object = none } else k

-- The first truncation failed: unlink, and try once more, on a new object if the old one is gone.
recreate : Answers → Kernel → Rc × Kernel
recreate a k =
    if a.reopen_ok
    then (
      success,
      closed (
          if a.retruncate_ok
          then truncated (opened (unlinked a (closed k)))
          else opened (unlinked a (closed k))),
    )
    else (failure, unlinked a (closed k))

-- The size that `fstat` finds.
resize : Answers → Kernel → Rc × Kernel
unfolding recreate
resize a k =
    if created k.object == jack_shmsize
    then (success, closed k)
    else if a.truncate_ok
    then (success, closed (truncated k))
    else recreate a k

unfoldable pub create_shm : Answers → Kernel → Rc × Kernel
unfolding resize
create_shm a k =
    if a.open_ok
    then if a.fstat_ok then resize a (opened k) else (failure, closed (opened k))
    else (failure, k)

-- Without `O_CREAT` there must be an object.
attachable : Answers → Option ℕ → Bool
attachable a none = false
attachable a (some n) = a.open_ok

-- A wrong size is logged, and no failure. The descriptor stays open on every path.
unfoldable pub attach_shm : Answers → Kernel → Rc × Kernel
unfolding attachable
attach_shm a k =
    if attachable a k.object
    then (
      (if a.fstat_ok then if a.mmap_ok then success else failure else failure),
      record k { open_fds = k.open_fds + 1 },
    )
    else (failure, k)
