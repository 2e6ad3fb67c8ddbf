-- ===== src/Device.antt =====
-- SA_Device of driver/JackBridge/Plug-In/SA_Device.h and SA_Device.cpp: the state of the HAL device,
-- its streams, and what opens it, starts it and stops it.
pub mod Running
pub mod Opening
pub mod Clock
pub mod Watchdog
pub mod Cycle
pub mod Transfer
use jack_router.Common.{
  ℕ, zero, suc, ◌+◌, ◌-◌, ◌*◌, ◌/◌, ◌^◌, Bool, true, false, ◌&&◌, ◌||◌, ◌==◌, ltb, if◌then◌else◌,
  u32, u64, Option, none, some, List, [], ◌∷◌,
}
use jack_router.Common.Float.{Float64}
use jack_router.Shm.{
  Shm, Kernel, Answers, Rc, success, failure, create_shm, attach_shm, check_protocol_version,
  strbufnum, num_input_streams, num_output_streams, drv_status_init, drv_status_active,
  drv_status_started,
}
use jack_router.Objects.{ObjectMap, map_object, unmap_object, uint64_max}

-- The fields of SA_Device, and of its SA_Object. `Value` is the type of a Float64.
pub record Device (Value : Type 0) : Type 0 where
  pub object_id : ℕ
  pub is_active : Bool
  pub start_count : ℕ  -- UInt64
  pub sample_rate_shadow : ℕ  -- UInt64
  pub ring_buffer_frame_size : ℕ  -- UInt32
  pub driver_status : ℕ  -- UInt32
  pub device_is_alive : Bool
  pub last_daemon_alive : ℕ
  pub last_daemon_alive_host_time : ℕ
  pub input_stream_object_id : ℕ → ℕ
  pub input_stream_is_active : ℕ → Bool
  pub output_stream_object_id : ℕ → ℕ
  pub output_stream_is_active : ℕ → Bool
  pub host_ticks_per_frame : Value
  pub number_time_stamps : ℕ  -- UInt64
  pub anchor_sample_time : Value
  pub anchor_host_time : ℕ  -- UInt64
  pub health_cycle_count : ℕ  -- UInt64
  pub health_last_host_time : ℕ  -- UInt64
  pub health_max_n_frames : ℕ  -- UInt32
  pub health_near_miss : ℕ  -- UInt32
  pub health_lead_jitter : ℕ  -- UInt64
  pub reported_latency_input : ℕ  -- UInt32
  pub reported_latency_output : ℕ  -- UInt32
  pub safety_offset_frames : ℕ  -- UInt32

-- The errors that the driver throws.
pub data Error : Type 0 where
  bad_object bad_device unknown_property bad_property_size : Error
  illegal_operation unsupported_format not_running : Error

-- Where the loops over the stream IDs find one: the first `i` of `count` with `ids i == id`.
pub index_from : ℕ → ℕ → (ℕ → ℕ) → ℕ → Option ℕ
index_from zero i ids id = none
index_from (suc count) i ids id = if ids i == id then some i else index_from count (i + 1) ids id

abbrev pub is_some {ℓ} : {A : Type ℓ} → Option A → Bool
is_some none = false
is_some (some a) = true

module _ {Value : Type 0} (d : Device Value) where
  unfoldable pub input_index : ℕ → Option ℕ
  unfolding index_from
  input_index id = index_from num_input_streams 0 d.input_stream_object_id id

  unfoldable pub output_index : ℕ → Option ℕ
  unfolding index_from
  output_index id = index_from num_output_streams 0 d.output_stream_object_id id

  unfoldable pub is_stream_object_id : ℕ → Bool
  unfolding input_index output_index
  is_stream_object_id id = is_some (input_index id) || is_some (output_index id)

  unfoldable pub is_input_stream_id : ℕ → Bool
  unfolding input_index
  is_input_stream_id id = is_some (input_index id)

  -- An ID of no stream gives 0.
  unfoldable pub get_stream_id : ℕ → ℕ
  unfolding input_index output_index
  get_stream_id id = elim (input_index id) [
    | some i ↦ i
    | none ↦ elim (output_index id) [ some i ↦ i | none ↦ 0 ]
  ]

-- `read_uint_from_plist`: `popen` fails, or `fscanf` finds no number, or finds one.
unfoldable pub read_uint_from_plist : Option (Option ℕ) → ℕ → ℕ
read_uint_from_plist none default = default
read_uint_from_plist (some none) default = default
read_uint_from_plist (some (some value)) default = u32 value

abbrev pub base_latency_frames : ℕ
base_latency_frames = 722

abbrev pub default_jitter_frames : ℕ
default_jitter_frames = 192

-- What the device, the region and the kernel are after a call, with the error that it throws.
pub record Outcome (Value : Type 0) : Type 0 where
  pub error : Option Error
  pub device : Device Value
  pub shm : Shm
  pub kernel : Kernel

module _ {Value : Type 0} where
  -- The tail of `_HW_Open`, with the version accepted.
  opened_device : Option (Option ℕ) → Device Value → Device Value
  unfolding read_uint_from_plist
  opened_device plist d = record d {
    driver_status = drv_status_active;
    ring_buffer_frame_size = strbufnum / 2;
    reported_latency_input = base_latency_frames;
    reported_latency_output = base_latency_frames;
    safety_offset_frames = read_uint_from_plist plist default_jitter_frames;
  }

  -- `m` is the region that `attach_shm` maps.
  unfoldable pub hw_open :
      Answers → Answers → Option (Option ℕ) → Device Value → Shm → Kernel → Outcome Value
  unfolding opened_device create_shm attach_shm check_protocol_version
  hw_open creating attaching plist d m k =
      let (rc, k') = create_shm creating k in
      let (rc', k'') = attach_shm attaching k' in
      let (accepted, m') = check_protocol_version m in
      elim rc [
        | failure ↦ record { error = some bad_device; device = d; shm = m; kernel = k' }
        | success ↦ elim rc' [
          | failure ↦ record { error = some bad_device; device = d; shm = m; kernel = k'' }
          | success ↦
              if accepted
              then record {
                error = none;
                device = opened_device plist d;
                shm = record m' { seed = 1; sync_mode = 0; driver_status = drv_status_active };
                kernel = k'';
              }
              else record { error = some bad_device; device = d; shm = m'; kernel = k'' }
        ]
      ]

  unfoldable pub hw_close : Device Value → Device Value
  hw_close d = record d { driver_status = drv_status_init }

  -- `now` is what `mach_absolute_time` answers.
  unfoldable pub hw_start_io : ℕ → Device Value → Shm → Option Error × Device Value × Shm
  hw_start_io now d m = if d.driver_status == drv_status_init then (some not_running, d, m) else (
    none,
    record d {
      driver_status = drv_status_started;
      anchor_host_time = 0;
      last_daemon_alive = m.daemon_alive;
      last_daemon_alive_host_time = now;
      device_is_alive = true;
    },
    record m { driver_status = drv_status_started },
  )

  unfoldable pub hw_stop_io : Device Value → Shm → Device Value × Shm
  hw_stop_io d m = (
    record d { driver_status = drv_status_active },
    record m { driver_status = drv_status_active },
  )

  abbrev count_up : Option Error × Device Value × Shm → Option Error × Device Value × Shm
  count_up (none, d, m) = (none, record d { start_count = u64 (d.start_count + 1) }, m)
  count_up (some e, d, m) = (some e, d, m)

  -- `zero_value` is 0.0.
  unfoldable pub start_io : Value → ℕ → Device Value → Shm → Option Error × Device Value × Shm
  unfolding hw_start_io
  start_io zero_value now d m =
      if d.start_count == uint64_max
      then (some illegal_operation, d, m)
      else if d.start_count == 0
      then count_up
          (hw_start_io now (record d { number_time_stamps = 0; anchor_sample_time = zero_value }) m)
      else count_up (none, d, m)

  unfoldable pub stop_io : Device Value → Shm → Device Value × Shm
  unfolding hw_stop_io
  stop_io d m =
      if d.start_count == 1
      then (record (hw_stop_io d m).0 { start_count = 0 }, (hw_stop_io d m).1)
      else if ltb 1 d.start_count
      then (record d { start_count = d.start_count - 1 }, m)
      else (d, m)
