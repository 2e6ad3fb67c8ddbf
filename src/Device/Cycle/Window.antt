-- ===== src/Device/Cycle/Window.antt =====
-- The window of the health counters: about five seconds of cycles.
use jack_router.Common.{
  ℕ, ◌+◌, ◌%◌, ◌^◌, ◌<◌, ◌≡◌, ◌≢◌, refl, arith, true, false, ◌==◌, if◌then◌else◌, u32, u64, none,
}
use jack_router.Common.Int.{ℤ, ◌-ℤ◌, s64}
use jack_router.Common.Float.{Float64}
use jack_router.Shm.{Shm}
use jack_router.Device.{Device}
use jack_router.Device.Transfer.{Operation, read_input, write_mix}
use jack_router.Device.Cycle.{CycleInfo, begin_io_operation, cycles_per_5s, frames_of, less_than_16}

module _ (F : Float64) where
  open F use {Value, positive}

  -- Before the host time unit is known, no operation has any effect.
  pub begin_before_activation :
      (o : Operation) (n : ℕ) (i : CycleInfo Value) (d : Device Value) (m : Shm)
      → positive d.host_ticks_per_frame ≡ false
      → begin_io_operation F o n i d m ≡ (d, m, none)
  unfolding begin_io_operation
  begin_before_activation read_input n i d m h = rw h
  begin_before_activation write_mix n i d m h = rw h
  begin_before_activation _ n i d m h = refl

  -- Every operation leaves the sequence number of the anchor even if it was.
  pub begin_even :
      (o : Operation) (n : ℕ) (i : CycleInfo Value) (d : Device Value) (m : Shm)
      → m.hal_anchor_seq % 2 ≡ 0
      → (begin_io_operation F o n i d m).1.hal_anchor_seq % 2 ≡ 0
  unfolding begin_io_operation
  begin_even read_input n i d m h = ground arith
  begin_even write_mix n i d m h = ground arith
  begin_even _ n i d m h = h

  -- The count of cycles never reaches the length of the window: a line is logged when it would.
  pub begin_cycle_count :
      (o : Operation) (n : ℕ) (i : CycleInfo Value) (d : Device Value) (m : Shm)
      → d.health_cycle_count < cycles_per_5s n d
      → (begin_io_operation F o n i d m).0.health_cycle_count < cycles_per_5s n d
  unfolding begin_io_operation
  begin_cycle_count read_input n i d m h = ground arith
  begin_cycle_count write_mix n i d m h = ground arith
  begin_cycle_count _ n i d m h = h

  abbrev pub in_lead : CycleInfo Value → Device Value → ℤ
  in_lead i d = frames_of F (s64 i.current_host_time -ℤ s64 i.input_host_time) d

  abbrev pub out_lead : CycleInfo Value → Device Value → ℤ
  out_lead i d = frames_of F (s64 i.output_host_time -ℤ s64 i.current_host_time) d

  -- Away from the end of the window.
  pub record IsInside (n : ℕ) (d : Device Value) : Type 0 where
    pub running : positive d.host_ticks_per_frame ≡ true
    pub inside : d.health_cycle_count + 1 < cycles_per_5s n d
    pub cycles_fit : d.health_cycle_count + 2 < 2 ^ 64
    pub misses_fit : d.health_near_miss + 2 < 2 ^ 32

  abbrev missed : ℤ → ℕ → ℕ
  missed lead count = if less_than_16 lead then u32 (count + 1) else count

  abbrev cycles_after : ℕ → Device Value → ℕ
  cycles_after host_time d =
      if host_time == d.health_last_host_time
      then d.health_cycle_count
      else u64 (d.health_cycle_count + 1)

  record IsNoted (i : CycleInfo Value) (lead : ℤ) (d d' : Device Value) : Type 0 where
    near_miss : d'.health_near_miss ≡ missed lead d.health_near_miss
    cycles : d'.health_cycle_count ≡ cycles_after i.current_host_time d
    last : d'.health_last_host_time ≡ i.current_host_time
    rate : d'.sample_rate_shadow ≡ d.sample_rate_shadow
    ticks : d'.host_ticks_per_frame ≡ d.host_ticks_per_frame

  IsNoted-read :
      (n : ℕ) (i : CycleInfo Value) (d : Device Value) (m : Shm)
      → positive d.host_ticks_per_frame ≡ true
      → d.health_cycle_count + 1 < 2 ^ 64
      → cycles_after i.current_host_time d < cycles_per_5s n d
      → IsNoted i (in_lead i d) d (begin_io_operation F read_input n i d m).0
  unfolding begin_io_operation
  IsNoted-read n i d m p c h = ground arith

  IsNoted-write :
      (n : ℕ) (i : CycleInfo Value) (d : Device Value) (m : Shm)
      → positive d.host_ticks_per_frame ≡ true
      → d.health_cycle_count + 1 < 2 ^ 64
      → cycles_after i.current_host_time d < cycles_per_5s n d
      → IsNoted i (out_lead i d) d (begin_io_operation F write_mix n i d m).0
  unfolding begin_io_operation
  IsNoted-write n i d m p c h = ground arith

  abbrev after_read : ℕ → CycleInfo Value → Device Value → Shm → Device Value
  after_read n i d m = (begin_io_operation F read_input n i d m).0

  same_lead :
      (i : CycleInfo Value) (d d' : Device Value)
      → d'.host_ticks_per_frame ≡ d.host_ticks_per_frame
      → out_lead i d' ≡ out_lead i d
  same_lead i d d' e = rw e

  -- In a cycle whose two operations both come too close, the log counts one cycle and two near
  -- misses: the count is of operations, not of cycles.
  pub near_miss_twice :
      (n : ℕ) (i : CycleInfo Value) (d : Device Value) (m m' : Shm)
      → IsInside n d
      → i.current_host_time ≢ d.health_last_host_time
      → less_than_16 (in_lead i d) ≡ true
      → less_than_16 (out_lead i d) ≡ true
      → let d' = (begin_io_operation F read_input n i d m).0 in
        let d'' = (begin_io_operation F write_mix n i d' m').0 in
        (d''.health_cycle_count ≡ d.health_cycle_count + 1)
        × (d''.health_near_miss ≡ d.health_near_miss + 2)
  near_miss_twice n i d m m' v ne hin hout =
      let d' = (begin_io_operation F read_input n i d m).0 in
      let r =
        IsNoted-read n i d m v.running (omega (arith, v.cycles_fit)) (ground (arith, v.inside)) in
      let c : d'.health_cycle_count ≡ d.health_cycle_count + 1 =
        ground (arith, r.cycles, v.cycles_fit) in
      let w =
        IsNoted-write n i d' m' (rw r.ticks v.running) (omega (arith, c, v.cycles_fit))
          (ground (arith, r.last, r.rate, c, v.inside)) in
      let s = same_lead i d d' r.ticks in
      (
        ground (arith, w.cycles, r.last, c),
        ground (arith, w.near_miss, r.near_miss, s, v.misses_fit),
      )
