-- ===== src/Workgroup/Scheduling.antt =====
-- The thread that has joined has a time constraint that fits the period.
use jack_router.Common.{
  ℕ, ◌*◌, ◌-◌, ◌^◌, ◌<◌, sym, if◌then◌else◌, ◌≤◌, ◌≡◌, ◌≢◌, inl, inr, refl, ap, ◌∙◌, arith, ◌/◌,
  true, false, ◌==◌, Bool-cases, none, some,
}
use mathlib.Core.Path.{subst}
use jack_router.Client.{Daemon, Period, period_ns, acquire_workgroup, join_acquired, join_workgroup}
use jack_router.Workgroup.Joining.{
  LongDouble, Policy, Thread, Mach, u32_limit, scaled, ns_to_abs, time_constraint,
  set_time_constraint_policy, workgroup_join_self,
}

-- The order of IEEE numbers, false for a NaN, as conversions and operations keep it.
pub record IsOrdered (f : LongDouble) (At_most : f.Value → f.Value → Type 0) : Type 0 where
  pub of_mono : (a b : ℕ) → a ≤ b → At_most (f.of_u64 a) (f.of_u64 b)
  pub mul_mono :
      (x y : f.Value) (n : ℕ)
      → 1 ≤ n
      → At_most x y
      → At_most (f.mul x (f.of_u64 n)) (f.mul y (f.of_u64 n))
  pub div_mono :
      (x y : f.Value) (n : ℕ)
      → 1 ≤ n
      → At_most x y
      → At_most (f.div x (f.of_u64 n)) (f.div y (f.of_u64 n))
  pub mul_zero : (n : ℕ) → f.mul (f.of_u64 0) (f.of_u64 n) ≡ f.of_u64 0
  pub div_zero : (n : ℕ) → 1 ≤ n → f.div (f.of_u64 0) (f.of_u64 n) ≡ f.of_u64 0
  pub below : (x y c : f.Value) → At_most x y → f.exceeds y c ≡ false → f.exceeds x c ≡ false
  pub to_mono :
      (x y : f.Value)
      → At_most (f.of_u64 0) x
      → At_most x y
      → f.exceeds y (f.of_u64 u32_limit) ≡ false
      → f.to_u32 x ≤ f.to_u32 y
  pub to_bound :
      (x : f.Value)
      → At_most (f.of_u64 0) x
      → f.exceeds x (f.of_u64 u32_limit) ≡ false
      → f.to_u32 x ≤ u32_limit

module _ (f : LongDouble) (At_most : f.Value → f.Value → Type 0) (ordered : IsOrdered f At_most)
    (k : Mach) (numer : 1 ≤ k.numer) (denom : 1 ≤ k.denom) where
  scaled_mono : (a b : ℕ) → a ≤ b → At_most (scaled f k a) (scaled f k b)
  scaled_mono a b h =
      ordered.div_mono (f.mul (f.of_u64 a) (f.of_u64 k.denom))
        (f.mul (f.of_u64 b) (f.of_u64 k.denom)) k.numer numer
        (ordered.mul_mono (f.of_u64 a) (f.of_u64 b) k.denom denom (ordered.of_mono a b h))

  scaled_zero : scaled f k 0 ≡ f.of_u64 0
  scaled_zero =
      ap (λ x. f.div x (f.of_u64 k.numer)) (ordered.mul_zero k.denom)
      ∙ ordered.div_zero k.numer numer

  scaled_positive : (a : ℕ) → At_most (f.of_u64 0) (scaled f k a)
  scaled_positive a =
      subst (λ x. At_most x (scaled f k a)) scaled_zero (scaled_mono 0 a (omega arith))

  ns_to_abs_bound : (a : ℕ) → ns_to_abs f k a ≤ u32_limit
  unfolding ns_to_abs
  ns_to_abs_bound a = elim (Bool-cases (f.exceeds (scaled f k a) (f.of_u64 u32_limit))) [
    | inl e ↦ rw e (omega arith)
    | inr e ↦ rw e (ordered.to_bound (scaled f k a) (scaled_positive a) e)
  ]

  ns_to_abs_mono : (a b : ℕ) → a ≤ b → ns_to_abs f k a ≤ ns_to_abs f k b
  unfolding ns_to_abs
  ns_to_abs_mono a b h = elim (Bool-cases (f.exceeds (scaled f k b) (f.of_u64 u32_limit))) [
    | inl e ↦ rw e (ns_to_abs_bound a)
    | inr e ↦
        rw
          (
            e,
            ordered.below (scaled f k a) (scaled f k b) (f.of_u64 u32_limit) (scaled_mono a b h) e,
          )
          (ordered.to_mono (scaled f k a) (scaled f k b) (scaled_positive a) (scaled_mono a b h) e)
  ]

-- The period's join is the code that `workgroup_join_self` returns.
abbrev pub by_joining : LongDouble → Mach → Thread → Period → Period
by_joining f k t p = record p {
  joins = λ period_ns computation_ns. (workgroup_join_self f k period_ns computation_ns t).1 == 0;
}

joined_by :
    (p : Period) (d : Daemon)
    → d.workgroup_joined ≡ false
    → (join_workgroup p d).workgroup_joined ≡ true
    → p.joins (period_ns p d) (period_ns p d / 2) ≡ true
unfolding join_workgroup acquire_workgroup join_acquired
joined_by p d h j = ground arith

-- What the kernel says of a thread that has just joined.
member :
    (f : LongDouble) (k : Mach) (a b : ℕ) (t : Thread)
    → ((workgroup_join_self f k a b t).1 == 0) ≡ true
    → ((workgroup_join_self f k a b t).0.is_member ≡ true)
      × (k.join (set_time_constraint_policy f k a b t) ≡ 0)
      × ((workgroup_join_self f k a b t).0.policy ≡ (set_time_constraint_policy f k a b t).policy)
unfolding workgroup_join_self
member f k a b t h = ground arith

-- The kernel takes the policy, or the thread keeps its own.
policy_after :
    (f : LongDouble) (k : Mach) (a b : ℕ) (t : Thread)
    → (set_time_constraint_policy f k a b t).policy
      ≡ (if k.sets (time_constraint f k a b) then some (time_constraint f k a b) else t.policy)
unfolding set_time_constraint_policy
policy_after f k a b t = elim (Bool-cases (k.sets (time_constraint f k a b))) [
  | inl e ↦ rw e refl
  | inr e ↦ rw e refl
]

-- Nanoseconds in ticks of the time base, truncated, and never more than 32 bits hold.
abbrev pub ticks : LongDouble → Mach → ℕ → ℕ
ticks f k ns =
    let exact = f.div (f.mul (f.of_u64 ns) (f.of_u64 k.denom)) (f.of_u64 k.numer) in
    if f.exceeds exact (f.of_u64 (2 ^ 32 - 1)) then 2 ^ 32 - 1 else f.to_u32 exact

-- The constraint for a period: all of it is the deadline, and half of it the budget.
abbrev pub asked : LongDouble → Mach → ℕ → Policy
asked f k period = record {
  period = ticks f k period;
  computation = ticks f k (period / 2);
  constraint = ticks f k period;
  preemptible = 0;
}

time_constraint-asked :
    (f : LongDouble) (k : Mach) (a : ℕ) → time_constraint f k a (a / 2) ≡ asked f k a
unfolding time_constraint ns_to_abs
time_constraint-asked f k a = refl

abbrev pub Fits : Policy → Type 0
Fits q =
    (q.computation ≤ q.constraint)
    × (q.constraint ≡ q.period)
    × (q.period < 2 ^ 32)
    × (q.preemptible ≡ 0)

asked-Fits :
    (f : LongDouble) (At_most : f.Value → f.Value → Type 0)
    → IsOrdered f At_most
    → (k : Mach) → 1 ≤ k.numer
    → 1 ≤ k.denom
    → (a : ℕ) → Fits (asked f k a)
unfolding ns_to_abs
asked-Fits f At_most ordered k numer denom a =
    let bound : ticks f k a ≤ u32_limit = ns_to_abs_bound f At_most ordered k numer denom a in
    (
      ns_to_abs_mono f At_most ordered k numer denom (a / 2) a (omega arith),
      refl,
      omega arith,
      refl,
    )

-- A call of process_callback that joins the workgroup leaves the thread a member. Its time constraint
-- is the one for the period of the call, 1e9 * frames / rate nanoseconds in ticks of the time base,
-- with half of it as the budget, if the kernel accepts that, and otherwise the thread's own, which
-- it then has. The one asked for is well-formed: the budget is no more than the deadline, which is
-- the period, and 32 bits hold them. The time base is positive, and the join refuses a thread
-- without a constraint.
pub join_workgroup_scheduled :
    (f : LongDouble) (At_most : f.Value → f.Value → Type 0)
    → IsOrdered f At_most
    → (k : Mach) → 1 ≤ k.numer
    → 1 ≤ k.denom
    → ((t : Thread) → t.policy ≡ none → k.join t ≢ 0)
    → (p : Period) (d : Daemon) (t : Thread) → d.workgroup_joined ≡ false
    → (join_workgroup (by_joining f k t p) d).workgroup_joined ≡ true
    → let after = (workgroup_join_self f k (period_ns p d) (period_ns p d / 2) t).0 in
      let q = asked f k (1_000_000_000 * p.nframes / d.sample_rate) in
      (after.is_member ≡ true)
      × (after.policy ≡ (if k.sets q then some q else t.policy))
      × (after.policy ≢ none)
      × Fits q
join_workgroup_scheduled f At_most ordered k numer denom refuses p d t h j =
    let a = period_ns p d in
    let (is_member, zero, same) = member f k a (a / 2) t (joined_by (by_joining f k t p) d h j) in
    let set = set_time_constraint_policy f k a (a / 2) t in
    (
      is_member,
      same
          ∙ policy_after f k a (a / 2) t
          ∙ ap (λ q. if k.sets q then some q else t.policy) (time_constraint-asked f k a),
      λ n. refuses set (sym same ∙ n) zero,
      asked-Fits f At_most ordered k numer denom a,
    )
