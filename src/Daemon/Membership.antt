-- ===== src/Daemon/Membership.antt =====
-- What one call of process_callback does about the workgroup is what its first part does.
use jack_router.Common.{
  ℕ, ◌≡◌, refl, ◌∙◌, arith, ◌==◌, Option, Always, Always-map, Always->>=, Always-bind, List,
}
use jack_router.Common.Array.{Array}
use jack_router.Shm.{Shm, drv_status_started}
use jack_router.Client.{Observation, Daemon, Period, join_workgroup}
use jack_router.Health.{Trace, check_progress, snapshot, trace_health, note_margin}
use jack_router.Daemon.{
  Processed, process_callback, run_period, move_samples, idle_period, silence_outputs, reanchor,
  activate, mark_zero_time, count_call, send_to_core_audio, receive_from_core_audio,
}
use jack_router.Daemon.Registers.{beating, either_way}

-- What the daemon remembers of the workgroup.
pub record SameGroup (d c : Daemon) : Type 0 where
  pub same_joined : c.workgroup_joined ≡ d.workgroup_joined
  pub same_backoff : c.workgroup_acquire_backoff ≡ d.workgroup_acquire_backoff

trans_group : {a b c : Daemon} → SameGroup a b → SameGroup b c → SameGroup a c
trans_group x y = record {
  same_joined = y.same_joined ∙ x.same_joined;
  same_backoff = y.same_backoff ∙ x.same_backoff;
}

note_group : (head : ℕ) (d : Daemon) → SameGroup d (note_margin head d)
unfolding note_margin
note_group head d = record { same_joined = ground arith; same_backoff = ground arith }

trace_group : (d : Daemon) → SameGroup d (trace_health d).0
unfolding trace_health
trace_group d = record { same_joined = ground arith; same_backoff = ground arith }

active_group : (d : Daemon) (m : Shm) → SameGroup d (count_call (activate d m).0)
unfolding activate
active_group d m = record { same_joined = ground arith; same_backoff = ground arith }

check_group :
    (os : List Observation) (d : Daemon)
    → Always (λ (x : Daemon × Option Trace). SameGroup d x.0) (check_progress os d)
unfolding check_progress
check_group os d =
    Always->>= (λ (x : Daemon × Option Trace). SameGroup d x.0) (snapshot os) _
      (λ head. trans_group (note_group head d) (trace_group (note_margin head d)))

move_group :
    (p : Period) (trace : Option Trace) (d : Daemon) (m : Shm) (out : Array × Array)
    → Always (λ (o : Processed). SameGroup d o.daemon) (move_samples p trace d m out)
unfolding move_samples
move_group p trace d m out =
    Always->>= (λ (o : Processed). SameGroup d o.daemon) (send_to_core_audio p d m) _
      (λ sent.
        Always->>= (λ (o : Processed). SameGroup d o.daemon) (receive_from_core_audio p d sent out)
          _ (λ x. record { same_joined = refl; same_backoff = refl }))

run_group :
    (p : Period) (d : Daemon) (m : Shm) (out : Array × Array)
    → Always (λ (o : Processed). SameGroup d o.daemon) (run_period p d m out)
unfolding run_period
run_group p d m out =
    Always-bind (λ (o : Processed). SameGroup d o.daemon) (check_progress p.observations d) _
      (λ x k.
        let (active, m') = activate x.0 m in
        Always-map (move_samples p x.1 (count_call active) (mark_zero_time p active m') out)
          (λ o i. trans_group k (trans_group (active_group x.0 m) i))
          (move_group p x.1 (count_call active) (mark_zero_time p active m') out))
      (check_group p.observations d)

idle_group :
    (d : Daemon) (m : Shm) (out : Array × Array)
    → Always (λ (o : Processed). SameGroup d o.daemon) (idle_period d m out)
unfolding idle_period
idle_group d m out =
    Always->>= (λ (o : Processed). SameGroup d o.daemon) (silence_outputs out) _
      (λ x. record { same_joined = refl; same_backoff = refl })

-- A whole call: the rest of it leaves alone what the first part has done.
pub call_group :
    (p : Period) (d : Daemon) (m : Shm) (out : Array × Array)
    → Always
        (λ (o : Processed). SameGroup (join_workgroup p d) o.daemon)
        (process_callback p d m out)
unfolding process_callback
call_group p d m out =
    let joined = join_workgroup p d in
    let seen : Daemon = record joined { last_driver_status = m.driver_status } in
    let anchored = reanchor p joined (beating m) in
    either_way (m.driver_status == drv_status_started) _ (run_period p seen anchored out)
      (idle_period seen anchored out)
      (Always-map (run_period p seen anchored out)
        (λ o i. record { same_joined = i.same_joined; same_backoff = i.same_backoff })
        (run_group p seen anchored out))
      (Always-map (idle_period seen anchored out)
        (λ o i. record { same_joined = i.same_joined; same_backoff = i.same_backoff })
        (idle_group seen anchored out))
