-- ===== src/Workgroup/Joining.antt =====
-- daemon/workgroup.cpp: how the thread of the JACK client joins the workgroup, under the policy of a
-- thread with a time constraint.
use jack_router.Common.{ℕ, Bool, true, false, ◌==◌, if◌then◌else◌, Option, some}

-- What the conversion uses of `long double`, which is no type of the model.
pub record LongDouble : Type 1 where
  pub Value : Type 0
  pub of_u64 : ℕ → Value
  pub mul : Value → Value → Value
  pub div : Value → Value → Value
  pub exceeds : Value → Value → Bool
  pub to_u32 : Value → ℕ

-- thread_time_constraint_policy_data_t
pub record Policy : Type 0 where
  pub period : ℕ
  pub computation : ℕ
  pub constraint : ℕ
  pub preemptible : ℕ

-- The thread as the kernel sees it: its time constraint, if it has one, and whether it is a member of
-- the workgroup.
pub record Thread : Type 0 where
  pub policy : Option Policy
  pub is_member : Bool

-- What Mach answers: the time base, whether `thread_policy_set` is KERN_SUCCESS, and what
-- `os_workgroup_join` returns to a thread.
pub record Mach : Type 0 where
  pub numer : ℕ
  pub denom : ℕ
  pub sets : Policy → Bool
  pub join : Thread → ℕ

abbrev pub u32_limit : ℕ
u32_limit = 0xFFFFFFFF

abbrev pub scaled : (f : LongDouble) → Mach → ℕ → f.Value
scaled f k ns = f.div (f.mul (f.of_u64 ns) (f.of_u64 k.denom)) (f.of_u64 k.numer)

unfoldable pub ns_to_abs : LongDouble → Mach → ℕ → ℕ
ns_to_abs f k ns =
    let v = scaled f k ns in if f.exceeds v (f.of_u64 u32_limit) then u32_limit else f.to_u32 v

unfoldable pub time_constraint : LongDouble → Mach → ℕ → ℕ → Policy
time_constraint f k period_ns computation_ns = record {
  period = ns_to_abs f k period_ns;
  computation = ns_to_abs f k computation_ns;
  constraint = ns_to_abs f k period_ns;
  preemptible = 0;
}

-- A policy that the kernel refuses leaves the thread's own.
unfoldable pub set_time_constraint_policy : LongDouble → Mach → ℕ → ℕ → Thread → Thread
set_time_constraint_policy f k period_ns computation_ns t =
    let policy = time_constraint f k period_ns computation_ns in
    if k.sets policy then record t { policy = some policy } else t

-- The thread and the code that is returned.
unfoldable pub workgroup_join_self : LongDouble → Mach → ℕ → ℕ → Thread → Thread × ℕ
unfolding set_time_constraint_policy
workgroup_join_self f k period_ns computation_ns t =
    let set = set_time_constraint_policy f k period_ns computation_ns t in
    let rc = k.join set in if rc == 0 then (record set { is_member = true }, 0) else (set, rc)

-- `wg` is whether it is not NULL.
unfoldable pub workgroup_leave_self : Bool → Thread → Thread
workgroup_leave_self wg t = if wg then record t { is_member = false } else t
