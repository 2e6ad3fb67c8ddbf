-- ===== src/Workgroup/Retries.antt =====
-- The calls of process_callback ask for the workgroup again and again until the daemon has joined it.
use jack_router.Common.{
  ℕ, ◌+◌, ◌≤◌, ◌<◌, ◌≡◌, ◌⊎◌, ◌/◌, ◌∙◌, arith, inl, inr, true, Bool-cases, leb, some, Always-some,
  List, [], ◌∷◌,
}
use jack_router.Common.Array.{Array}
use jack_router.Common.Size.{length}
use jack_router.Shm.{Shm}
use jack_router.Client.{Daemon, Period, period_ns, acquire_workgroup, join_acquired, join_workgroup}
use jack_router.Daemon.{Processed, process_callback}
use jack_router.Daemon.Membership.{SameGroup, call_group}

-- Calls in successive periods, from one state of the daemon to another: between two, the HAL may
-- change the region at will.
pub data Calls : List Period → Daemon → Daemon → Type 0 where
  over : {d : Daemon} → Calls [] d d
  call :
      {p : Period} {ps : List Period} {d e : Daemon} {o : Processed} (m : Shm) (out : Array × Array)
      → process_callback p d m out ≡ some o
      → Calls ps o.daemon e
      → Calls (p ∷ ps) d e

-- Core Audio has a workgroup to give in each period, and the join succeeds.
abbrev pub IsGiven : List Period → Type 0
IsGiven [] = Unit
IsGiven (p ∷ ps) = (p.acquired ≡ true) × ((a b : ℕ) → p.joins a b ≡ true) × IsGiven ps

after_call :
    (p : Period) (d : Daemon) (m : Shm) (out : Array × Array) {o : Processed}
    → process_callback p d m out ≡ some o
    → SameGroup (join_workgroup p d) o.daemon
after_call p d m out h =
    Always-some (λ (o : Processed). SameGroup (join_workgroup p d) o.daemon) (call_group p d m out)
      h

stays_joined :
    (p : Period) (d : Daemon)
    → d.workgroup_joined ≡ true
    → (join_workgroup p d).workgroup_joined ≡ true
unfolding join_workgroup
stays_joined p d h = ground arith

-- No call leaves the workgroup.
stays :
    {ps : List Period} {d e : Daemon}
    → Calls ps d e
    → d.workgroup_joined ≡ true
    → e.workgroup_joined ≡ true
stays over h = h
stays (call {p} {d = d} m out made rest) h =
    stays rest ((after_call p d m out made).same_joined ∙ stays_joined p d h)

-- A period joins, or counts towards the next try.
one_more :
    (p : Period) (d : Daemon)
    → p.acquired ≡ true
    → ((a b : ℕ) → p.joins a b ≡ true)
    → ((join_workgroup p d).workgroup_joined ≡ true)
      ⊎ ((d.workgroup_acquire_backoff + 1 < 750)
          × ((join_workgroup p d).workgroup_acquire_backoff ≡ d.workgroup_acquire_backoff + 1))
unfolding join_workgroup acquire_workgroup join_acquired
one_more p d h j =
    let given = j (period_ns p d) (period_ns p d / 2) in
    elim (Bool-cases (leb 750 (d.workgroup_acquire_backoff + 1))) [
      | inl e ↦ ground arith
      | inr e ↦ ground arith
    ]

-- Whatever the state, the daemon has joined the workgroup once there have been as many calls as its
-- count of waiting periods lacks to 750, and at least one, if Core Audio has the workgroup to give and
-- the join succeeds, and it stays a member. The HAL may change the region between the calls.
pub calls_join :
    {ps : List Period} {d e : Daemon}
    → Calls ps d e
    → IsGiven ps
    → 1 ≤ length ps
    → 750 ≤ d.workgroup_acquire_backoff + length ps
    → e.workgroup_joined ≡ true
calls_join over given some_call enough = absurd (omega arith)
calls_join (call {p} {d = d} m out made rest) (acquired, joins, given) some_call enough =
    let after = after_call p d m out made in
    elim (one_more p d acquired joins) [
      | inl e ↦ stays rest (after.same_joined ∙ e)
      | inr (less, e) ↦
          calls_join rest given (omega arith) (rw (after.same_backoff ∙ e) (omega arith))
    ]
