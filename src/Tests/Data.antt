-- ===== src/Tests/Data.antt =====
-- The data of the tests: whole numbers in the place of Float64, a region with silent rings, an opened
-- device, and an active daemon.
use jack_router.Common.{ℕ, ◌+◌, ◌*◌, ◌/◌, ◌==◌, ltb, true, false, some, [], ◌∷◌}
use jack_router.Common.Int.{pos, pos_part}
use jack_router.Common.Array.{Array}
use jack_router.Common.Float.{Float64}
use jack_router.Shm.{Shm, Answers, Kernel}
use jack_router.Device.{Device}
use jack_router.Client.{Daemon, Period, Observation}

abbrev pub whole : Float64
whole = record {
  Value = ℕ;
  of_u64 = λ n. n;
  of_s64 = pos_part;
  to_u64 = λ n. n;
  to_s64 = pos;
  add = λ a b. a + b;
  mul = λ a b. a * b;
  div = λ a b. a / b;
  positive = ltb 0;
  eq = λ a b. a == b;
}

abbrev pub silent : ℕ → Array
silent n = record { size = n; cell = λ _. 0 }

abbrev pub counting : ℕ → Array
counting n = record { size = n; cell = λ k. k + 1 }

abbrev pub region : ℕ → Shm
region status = record {
  number_time_stamps = 0;
  zero_host_time = 0;
  seed = 1;
  sync_mode = 1;
  buffer_size = 0x8000;
  driver_status = status;
  version = 5;
  daemon_alive = 7;
  hal_anchor_seq = 4;
  hal_anchor_host_time = 0;
  hal_anchor_sample_time = 0;
  hal_input_read_head = 100;
  hal_output_write_head = 0;
  hal_n_frames = 64;
  hal_sample_rate = 48000;
  read_frame_number = λ _. 0;
  write_frame_number = λ _. 0;
  buf_up = λ _. counting 8192;
  buf_down = λ _. silent 8192;
}

abbrev pub device : Device ℕ
device = record {
  object_id = 32;
  is_active = true;
  start_count = 0;
  sample_rate_shadow = 48000;
  ring_buffer_frame_size = 4096;
  driver_status = 1;
  device_is_alive = true;
  last_daemon_alive = 7;
  last_daemon_alive_host_time = 1000;
  input_stream_object_id = λ i. 33 + i;
  input_stream_is_active = λ _. true;
  output_stream_object_id = λ i. 35 + i;
  output_stream_is_active = λ _. true;
  host_ticks_per_frame = 2;
  number_time_stamps = 0;
  anchor_sample_time = 0;
  anchor_host_time = 500;
  health_cycle_count = 3;
  health_last_host_time = 900;
  health_max_n_frames = 64;
  health_near_miss = 1;
  health_lead_jitter = 0;
  reported_latency_input = 722;
  reported_latency_output = 722;
  safety_offset_frames = 192;
}

-- At the start of a period of 64 frames.
abbrev pub daemon : ℕ → ℕ → Daemon
daemon last frame = record {
  is_active = true;
  is_sync_mode = true;
  is_verbose = false;
  frame_number = frame;
  last_trace_frame = 0;
  ncalls = 0;
  last_driver_status = last;
  workgroup = true;
  workgroup_joined = true;
  workgroup_acquire_backoff = 0;
  xrun_count = 2;
  health_deficit = 0;
  health_margin_abs_dev = 0;
  snap_count = 0;
  sample_rate = 48000;
  jitter_frames = 192;
}

abbrev pub observation : ℕ → ℕ → ℕ → Observation
observation s1 head s2 = record { s1 = s1; head = head; s2 = s2 }

-- The first two snapshots are torn.
abbrev pub period : Period
period = record {
  nframes = 64;
  acquired = false;
  joins = λ _ _. true;
  restart_time = 2000;
  anchor_time = 3000;
  observations = observation 3 90 3 ∷ observation 2 90 4 ∷ observation 4 100 4 ∷ [];
  audio_in = λ i. counting 64;
}

-- Every system call succeeds.
abbrev pub answers : Answers
answers = record {
  open_ok = true;
  fstat_ok = true;
  truncate_ok = true;
  reopen_ok = true;
  unlink_ok = true;
  retruncate_ok = true;
  mmap_ok = true;
}

abbrev pub kernel : Kernel
kernel = record { object = some 0x30000; open_fds = 0 }
