-- ===== src/Device/Cycle.antt =====
-- SA_Device::BeginIOOperation: the health counters of an IO cycle, and the anchor that it publishes.
pub mod Window
use jack_router.Common.{
  ℕ, ◌+◌, ◌-◌, ◌*◌, ◌/◌, ◌^◌, Bool, true, false, ◌||◌, ◌==◌, ltb, if◌then◌else◌, u32, u64, Option,
  none, some,
}
use jack_router.Common.Int.{ℤ, pos, negsuc, ◌-ℤ◌, sub_ℕ, abs, s64}
use jack_router.Common.Float.{Float64}
use jack_router.Shm.{Shm}
use jack_router.Device.{Device}
use jack_router.Device.Transfer.{Operation, read_input, write_mix}

-- AudioServerPlugInIOCycleInfo: three times, each as host time and as sample time.
pub record CycleInfo (Value : Type 0) : Type 0 where
  pub current_host_time : ℕ
  pub current_sample_time : Value
  pub input_host_time : ℕ
  pub input_sample_time : Value
  pub output_host_time : ℕ
  pub output_sample_time : Value

-- The values of one publication.
pub record Anchor : Type 0 where
  pub host_time : ℕ
  pub sample_time : ℕ
  pub read_head : ℕ
  pub write_head : ℕ
  pub n_frames : ℕ
  pub sample_rate : ℕ

-- The line of the health log.
pub record Health : Type 0 where
  pub cycles : ℕ
  pub max_burst : ℕ
  pub near_miss : ℕ
  pub lead_jitter : ℕ

abbrev pub less_than_16 : ℤ → Bool
less_than_16 (pos n) = ltb n 16
less_than_16 (negsuc n) = true

-- The stores of a publication, from the odd sequence number to the even one.
unfoldable pub publish : Anchor → Shm → Shm
publish a m =
    let seq = u64 (m.hal_anchor_seq + 1) in
    record m {
      hal_anchor_seq = u64 (seq + 1);
      hal_anchor_host_time = a.host_time;
      hal_anchor_sample_time = a.sample_time;
      hal_input_read_head = a.read_head;
      hal_output_write_head = a.write_head;
      hal_n_frames = a.n_frames;
      hal_sample_rate = a.sample_rate;
    }

module _ {Value : Type 0} where
  -- `leadJitter += |lead - nominal|`, and the count of near misses.
  unfoldable pub note_lead : ℤ → ℤ → Device Value → Device Value
  note_lead lead nominal d = record d {
    health_lead_jitter = u64 (d.health_lead_jitter + abs (lead -ℤ nominal));
    health_near_miss =
        (if less_than_16 lead then u32 (d.health_near_miss + 1) else d.health_near_miss);
  }

  -- Once per cycle, however many operations the cycle has.
  unfoldable pub note_cycle : ℕ → ℕ → Device Value → Device Value
  note_cycle host_time n d = if host_time == d.health_last_host_time then d else record d {
    health_last_host_time = host_time;
    health_cycle_count = u64 (d.health_cycle_count + 1);
    health_max_n_frames = (if ltb d.health_max_n_frames n then n else d.health_max_n_frames);
  }

  abbrev pub cycles_per_5s : ℕ → Device Value → ℕ
  cycles_per_5s n d = if ltb 0 n then u64 (d.sample_rate_shadow * 5) / n else 0

  unfoldable pub emit_health : ℕ → Device Value → Device Value × Option Health
  emit_health n d =
      if cycles_per_5s n d == 0 || ltb d.health_cycle_count (cycles_per_5s n d)
      then (d, none)
      else (
        record d {
          health_cycle_count = 0;
          health_max_n_frames = 0;
          health_near_miss = 0;
          health_lead_jitter = 0;
        },
        some (record {
          cycles = d.health_cycle_count;
          max_burst = d.health_max_n_frames;
          near_miss = d.health_near_miss;
          lead_jitter = d.health_lead_jitter;
        }),
      )

module _ (F : Float64) where
  open F use {Value, of_s64, to_u64, to_s64, div, positive}

  -- Host ticks as frames.
  abbrev pub frames_of : ℤ → Device Value → ℤ
  frames_of ticks d = to_s64 (div (of_s64 ticks) d.host_ticks_per_frame)

  -- The nominal lead is `nframes - 1 + SafetyOffset`.
  abbrev pub nominal : ℕ → Device Value → ℤ
  nominal n d = sub_ℕ (n + d.safety_offset_frames) 1

  abbrev pub anchor_of : ℕ → CycleInfo Value → Device Value → Anchor
  anchor_of n i d = record {
    host_time = i.current_host_time;
    sample_time = to_u64 i.current_sample_time;
    read_head = to_u64 i.input_sample_time;
    write_head = to_u64 i.output_sample_time;
    n_frames = n;
    sample_rate = d.sample_rate_shadow;
  }

  -- What follows once the lead of the operation is known.
  finish_cycle : ℕ → CycleInfo Value → ℤ → Device Value → Shm → Device Value × Shm × Option Health
  unfolding note_lead note_cycle publish emit_health
  finish_cycle n i lead d m =
      let noted = note_lead lead (nominal n d) d in
      let counted = note_cycle i.current_host_time n noted in
      let (d', line) = emit_health n counted in (d', publish (anchor_of n i d) m, line)

  unfoldable pub begin_io_operation :
      Operation → ℕ → CycleInfo Value → Device Value → Shm → Device Value × Shm × Option Health
  unfolding finish_cycle
  begin_io_operation read_input n i d m =
      if positive d.host_ticks_per_frame
      then finish_cycle n i (frames_of (s64 i.current_host_time -ℤ s64 i.input_host_time) d) d m
      else (d, m, none)
  begin_io_operation write_mix n i d m =
      if positive d.host_ticks_per_frame
      then finish_cycle n i (frames_of (s64 i.output_host_time -ℤ s64 i.current_host_time) d) d m
      else (d, m, none)
  begin_io_operation o n i d m = (d, m, none)
