-- ===== src/Client.antt =====
-- The state of the JACK client of daemon/JackBridge.cpp, its constructor, and how its thread joins the
-- device's workgroup.
use jack_router.Common.{ℕ, ◌+◌, ◌*◌, ◌/◌, Bool, true, false, leb, if◌then◌else◌, List}
use jack_router.Common.Array.{Array}
use jack_router.Shm.{Shm, strbufnum, strbufsz, drv_status_active}

-- The fields of JackBridge and of its base classes. `workgroup` is whether a reference is held.
pub record Daemon : Type 0 where
  pub is_active : Bool
  pub is_sync_mode : Bool
  pub is_verbose : Bool
  pub frame_number : ℕ  -- uint64_t
  pub last_trace_frame : ℕ  -- uint64_t
  pub ncalls : ℕ
  pub last_driver_status : ℕ
  pub workgroup : Bool
  pub workgroup_joined : Bool
  pub workgroup_acquire_backoff : ℕ
  pub xrun_count : ℕ  -- uint32_t
  pub health_deficit : ℕ  -- uint64_t
  pub health_margin_abs_dev : ℕ  -- uint64_t
  pub snap_count : ℕ  -- uint32_t
  pub sample_rate : ℕ
  pub jitter_frames : ℕ

-- `FramesPerBuffer`
abbrev pub frames_per_buffer : ℕ
frames_per_buffer = strbufnum / 2

-- The constructor, once the region is attached and accepted; `acquired` is the first try for the
-- workgroup.
unfoldable pub init : Bool → Bool → ℕ → ℕ → Shm → Daemon × Shm
init verbose acquired sample_rate jitter m = (
  record {
    is_active = false;
    is_sync_mode = true;
    is_verbose = verbose;
    frame_number = 0;
    last_trace_frame = 0;
    ncalls = 0;
    last_driver_status = drv_status_active;
    workgroup = acquired;
    workgroup_joined = false;
    workgroup_acquire_backoff = 0;
    xrun_count = 0;
    health_deficit = 0;
    health_margin_abs_dev = 0;
    snap_count = 0;
    sample_rate = sample_rate;
    jitter_frames = jitter;
  },
  record m { buffer_size = strbufsz; sync_mode = 0 },
)

-- What three loads of `check_progress` find.
pub record Observation : Type 0 where
  pub s1 : ℕ
  pub head : ℕ
  pub s2 : ℕ

-- What surrounds one call: the size of the period, what the system answers, and the port buffers.
pub record Period : Type 0 where
  pub nframes : ℕ
  pub acquired : Bool
  pub joins : ℕ → ℕ → Bool
  pub restart_time : ℕ
  pub anchor_time : ℕ
  pub observations : List Observation
  pub audio_in : ℕ → Array

-- The lazy acquisition of the workgroup.
unfoldable pub acquire_workgroup : Period → Daemon → Daemon
acquire_workgroup p d =
    if d.workgroup
    then d
    else if leb 750 (d.workgroup_acquire_backoff + 1)
    then record d { workgroup_acquire_backoff = 0; workgroup = p.acquired }
    else record d { workgroup_acquire_backoff = d.workgroup_acquire_backoff + 1 }

abbrev pub period_ns : Period → Daemon → ℕ
period_ns p d = 1_000_000_000 * p.nframes / d.sample_rate

unfoldable pub join_acquired : Period → Daemon → Daemon
join_acquired p d =
    if d.workgroup
    then if p.joins (period_ns p d) (period_ns p d / 2)
      then record d { workgroup_joined = true }
      else record d { workgroup = false }
    else d

unfoldable pub join_workgroup : Period → Daemon → Daemon
unfolding acquire_workgroup join_acquired
join_workgroup p d = if d.workgroup_joined then d else join_acquired p (acquire_workgroup p d)
