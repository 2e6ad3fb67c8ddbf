-- ===== src/Tests/Joining.antt =====
-- The workgroup, at concrete inputs.
use native.Mathlib.Nat.{le-div_iff_mul-le}
use jack_router.Common.{ℕ, ◌*◌, ◌/◌, ◌≤◌, ◌≡◌, ◌≢◌, refl, arith, true, false, ltb, none, some}
use jack_router.Client.{Daemon, Period, period_ns, join_workgroup}
use jack_router.Daemon.{Processed, process_callback}
use jack_router.Daemon.Idle.{process_callback_idle}
use jack_router.Workgroup.Joining.{LongDouble, Policy, Thread, Mach, workgroup_join_self}
use jack_router.Workgroup.Scheduling.{IsOrdered, Fits, by_joining, join_workgroup_scheduled}
use jack_router.Workgroup.Retries.{over, call, calls_join}
use jack_router.Tests.Data.{silent, region, daemon, period}

-- Whole numbers, rounded down, in the place of `long double`.
abbrev whole_numbers : LongDouble
whole_numbers = record {
  Value = ℕ;
  of_u64 = λ n. n;
  mul = λ x y. x * y;
  div = λ x y. x / y;
  exceeds = λ x y. ltb y x;
  to_u32 = λ x. x;
}

div_mono : (x y n : ℕ) → 1 ≤ n → x ≤ y → x / n ≤ y / n
div_mono x y n h k =
    let below : x / n * n ≤ x =
      (le-div_iff_mul-le {k = n} {x = x / n} {y = x} (omega arith)).0 (omega arith) in
    (le-div_iff_mul-le {k = n} {x = x / n} {y = y} (omega arith)).1 (omega arith)

ordered : IsOrdered whole_numbers (λ x y. x ≤ y)
ordered = record {
  of_mono = λ a b h. h;
  mul_mono = λ x y n h k. grind arith;
  div_mono = div_mono;
  mul_zero = λ n. omega arith;
  div_zero = λ n h. grind arith;
  below = λ x y c h k. ground arith;
  to_mono = λ x y z h k. h;
  to_bound = λ x z k. ground arith;
}

-- The join refuses a thread without a time constraint, with EINVAL.
abbrev answer : Thread → ℕ
answer t = elim t.policy [ none ↦ 22 | some q ↦ 0 ]

abbrev mach : Mach
mach = record { numer = 125; denom = 3; sets = λ q. true; join = answer }

abbrev outside : Thread
outside = record { policy = none; is_member = false }

-- A daemon that has waited for 748 periods without a workgroup, in a region whose driver is stopped.
abbrev waiting : Daemon
waiting = record (daemon 1 4288) {
  workgroup = false;
  workgroup_joined = false;
  workgroup_acquire_backoff = 748;
}

abbrev giving : Period
giving = record period { acquired = true }

-- The workgroup is held, and not joined yet.
abbrev holding : Daemon
holding = record waiting { workgroup = true }

scheduled :
    (join_workgroup (by_joining whole_numbers mach outside giving) holding).workgroup_joined ≡ true
unfolding join_workgroup workgroup_join_self
scheduled = refl

-- 64 frames at 48000 a second are 1333333 ns, and 3/125 ticks are one.
abbrev granted : Policy
granted = record { period = 31_999; computation = 15_999; constraint = 31_999; preemptible = 0 }

join_workgroup_scheduled_example :
    let after =
      (workgroup_join_self whole_numbers mach
        (period_ns giving holding)
        (period_ns giving holding / 2)
        outside).0 in
    (after.is_member ≡ true) × (after.policy ≡ some granted) × (after.policy ≢ none) × Fits granted
join_workgroup_scheduled_example =
    join_workgroup_scheduled whole_numbers (λ x y. x ≤ y) ordered mach (omega arith) (omega arith)
      (λ t e. rw e (omega arith)) giving holding outside refl scheduled

abbrev Ends : Daemon → Type 0
Ends d =
    (o : Processed) × (process_callback giving d (region 1) (silent 8192, silent 8192) ≡ some o)

ends : (d : Daemon) → Ends d
ends d =
    let r =
      process_callback_idle giving d (region 1) (silent 8192) (silent 8192) (λ e. ground arith)
        (omega arith) (omega arith) in
    (r.0, r.1)

calls_join_example : (ends (ends waiting).0.daemon).0.daemon.workgroup_joined ≡ true
calls_join_example =
    calls_join
      (call (region 1) (silent 8192, silent 8192) (ends waiting).1
        (call (region 1) (silent 8192, silent 8192) (ends (ends waiting).0.daemon).1 over))
      ((refl, λ a b. refl, (refl, λ a b. refl, tt))) (omega arith) (omega arith)
