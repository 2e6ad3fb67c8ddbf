-- ===== src/Daemon/Registers.antt =====
-- The registers of the clock and of the heartbeat, through one period of process_callback.
use mathlib.Core.Path.{subst}
use jack_router.Common.{
  ℕ, ◌+◌, ◌/◌, ◌%◌, ◌≡◌, refl, ap, ◌∙◌, arith, Bool, true, false, not, ◌||◌, ◌==◌, if◌then◌else◌,
  u64, Option, none, some, Always, Always-map, ◌>>=◌, List, inl, inr, Bool-cases,
}
use jack_router.Common.Array.{Array}
use jack_router.Shm.{Shm, drv_status_started}
use jack_router.Client.{Observation, Daemon, Period, join_workgroup, frames_per_buffer}
use jack_router.Health.{Trace, check_progress, snapshot, trace_health, note_margin}
use jack_router.Daemon.{
  Processed, process_callback, run_period, move_samples, idle_period, silence_outputs, reanchor,
  activate, mark_zero_time, count_call,
}
use jack_router.Daemon.Prepared.{
  cursor, Keeps, same_cursor, join_workgroup-Keeps, join_same_status, checked-Keeps,
}
use jack_router.Daemon.Untouched.{SameClock, move_clock}

-- The registers of the clock after a period of a running daemon, from those before.
pub record IsMarked (p : Period) (d : Daemon) (m m' : Shm) : Type 0 where
  pub number : m'.number_time_stamps ≡ (
      if cursor d % frames_per_buffer == 0
      then cursor d / frames_per_buffer
      else m.number_time_stamps)
  pub host_time :
      m'.zero_host_time
      ≡ (if cursor d % frames_per_buffer == 0 then p.anchor_time else m.zero_host_time)
  pub seed : m'.seed ≡ (if d.is_active || not d.is_sync_mode then m.seed else u64 (m.seed + 1))
  pub sync : m'.sync_mode ≡ (if d.is_active || not d.is_sync_mode then m.sync_mode else 1)
  pub alive : m'.daemon_alive ≡ m.daemon_alive

marked :
    (p : Period) (d : Daemon) (m : Shm)
    → IsMarked p d m (mark_zero_time p (activate d m).0 (activate d m).1)
unfolding activate mark_zero_time
marked p d m = elim (Bool-cases d.is_active) [
  | inl e ↦ record {
    number = ground arith;
    host_time = ground arith;
    seed = ground arith;
    sync = ground arith;
    alive = ground arith;
  }
  | inr e ↦ record {
    number = ground arith;
    host_time = ground arith;
    seed = ground arith;
    sync = ground arith;
    alive = ground arith;
  }
]

clocked :
    {p : Period} {d : Daemon} {m m' m'' : Shm}
    → IsMarked p d m m'
    → SameClock m' m''
    → IsMarked p d m m''
clocked i c = record {
  number = c.same_number ∙ i.number;
  host_time = c.same_host_time ∙ i.host_time;
  seed = c.same_seed ∙ i.seed;
  sync = c.same_sync ∙ i.sync;
  alive = c.same_alive ∙ i.alive;
}

kept : {p : Period} {d c : Daemon} {m m' : Shm} → Keeps d c → IsMarked p c m m' → IsMarked p d m m'
kept k i = record {
  number = rw (same_cursor k) at i.number;
  host_time = rw (same_cursor k) at i.host_time;
  seed = rw (k.same_active, k.same_mode) at i.seed;
  sync = rw (k.same_active, k.same_mode) at i.sync;
  alive = i.alive;
}

check-Keeps :
    (os : List Observation) (d : Daemon)
    → Always (λ (x : Daemon × Option Trace). Keeps d x.0) (check_progress os d)
unfolding check_progress
check-Keeps os d = go (snapshot os)
  where
    go :
        (head : Option ℕ)
        → Always
            (λ (x : Daemon × Option Trace). Keeps d x.0)
            (head >>= λ h. some (trace_health (note_margin h d)))
    go none = tt
    go (some h) = checked-Keeps h d

run-IsMarked :
    (p : Period) (d : Daemon) (m : Shm) (out : Array × Array)
    → Always (λ (o : Processed). IsMarked p d m o.shm) (run_period p d m out)
unfolding run_period
run-IsMarked p d m out = go (check_progress p.observations d) (check-Keeps p.observations d)
  where
    go :
        (check : Option (Daemon × Option Trace))
        → Always (λ (x : Daemon × Option Trace). Keeps d x.0) check
        → Always
            (λ (o : Processed). IsMarked p d m o.shm)
            (check >>= λ (checked, trace).
              let (active, m') = activate checked m in
              move_samples p trace (count_call active) (mark_zero_time p active m') out)
    go none h = tt
    go (some (c, trace)) h =
        let a = (activate c m).0 in
        let m' = (activate c m).1 in
        Always-map (move_samples p trace (count_call a) (mark_zero_time p a m') out)
          (λ o s. kept h (clocked (marked p c m) s))
          (move_clock p trace (count_call a) (mark_zero_time p a m') out)

abbrev pub beating : Shm → Shm
beating m = record m { daemon_alive = u64 (m.daemon_alive + 1) }

idle_alive :
    (d : Daemon) (m : Shm) (out : Array × Array)
    → Always (λ (o : Processed). o.shm ≡ m) (idle_period d m out)
unfolding idle_period
idle_alive d m out = go (silence_outputs out)
  where
    go :
        (silent : Option (Array × Array))
        → Always
            (λ (o : Processed). o.shm ≡ m)
            (silent >>= λ x. some (record { daemon = d; shm = m; out = x; trace = none }))
    go none = tt
    go (some x) = refl

while_started :
    {status : ℕ} (P : Processed → Type 0) (run rest : Option Processed)
    → status ≡ drv_status_started
    → Always P run
    → Always P (if status == drv_status_started then run else rest)
while_started P run rest e v = rw e v

pub either_way :
    (b : Bool) (P : Processed → Type 0) (run rest : Option Processed)
    → Always P run
    → Always P rest
    → Always P (if b then run else rest)
either_way true P run rest v w = v
either_way false P run rest v w = w

reanchor_kept :
    (p : Period) {d c : Daemon} (m : Shm)
    → Keeps d c
    → c.last_driver_status ≡ d.last_driver_status
    → reanchor p c m ≡ reanchor p d m
unfolding reanchor
reanchor_kept p m k e = rw (k.same_frame, e) refl

seen-Keeps :
    {d c : Daemon} (status : ℕ) → Keeps d c → Keeps d (record c { last_driver_status = status })
seen-Keeps status k = record {
  same_frame = k.same_frame;
  same_active = k.same_active;
  same_mode = k.same_mode;
}

-- A period of a running daemon, with the region as the restart has left it.
pub process-IsMarked :
    (p : Period) (d : Daemon) (m : Shm) (out : Array × Array)
    → m.driver_status ≡ drv_status_started
    → Always
        (λ (o : Processed). IsMarked p d (reanchor p d (beating m)) o.shm)
        (process_callback p d m out)
unfolding process_callback
process-IsMarked p d m out e =
    let joined = join_workgroup p d in
    let seen : Daemon = record joined { last_driver_status = m.driver_status } in
    let anchored = reanchor p joined (beating m) in
    let k = join_workgroup-Keeps p d in
    while_started _ (run_period p seen anchored out) _ e (
      Always-map (run_period p seen anchored out)
        (λ o i.
          subst (λ r. IsMarked p d r o.shm) (reanchor_kept p (beating m) k (join_same_status p d))
            (kept (seen-Keeps m.driver_status k) i))
        (run-IsMarked p seen anchored out))

pub beats :
    (p : Period) (d : Daemon) (m : Shm) (out : Array × Array)
    → Always
        (λ (o : Processed). o.shm.daemon_alive ≡ u64 (m.daemon_alive + 1))
        (process_callback p d m out)
unfolding process_callback reanchor
beats p d m out =
    let joined = join_workgroup p d in
    let seen : Daemon = record joined { last_driver_status = m.driver_status } in
    let anchored = reanchor p joined (beating m) in
    let same : anchored.daemon_alive ≡ u64 (m.daemon_alive + 1) = ground arith in
    either_way (m.driver_status == drv_status_started) _ (run_period p seen anchored out)
      (idle_period seen anchored out)
      (Always-map (run_period p seen anchored out) (λ o i. i.alive ∙ same)
        (run-IsMarked p seen anchored out))
      (Always-map (idle_period seen anchored out) (λ o i. ap (λ x. x.daemon_alive) i ∙ same)
        (idle_alive seen anchored out))
