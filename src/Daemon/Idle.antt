-- ===== src/Daemon/Idle.antt =====
-- process_callback while the driver is not started: silence.
use jack_router.Common.{
  ℕ, zero, suc, ◌+◌, ◌≤◌, ◌<◌, ◌≡◌, ◌≢◌, refl, ◌∙◌, arith, ◌==◌, ltb, if◌then◌else◌, u64, Option,
  none, some, inl, inr, Bool-cases, ltb→lt,
}
use jack_router.Common.Array.{
  Array, update, Filled, bzero, bzero-Filled, store-some, store-out_of_bounds,
}
use jack_router.Shm.{Shm, drv_status_started}
use jack_router.Client.{Daemon, Period, join_workgroup}
use jack_router.Daemon.{
  Processed, process_callback, idle_period, silence, silence_outputs, reanchor,
}
use jack_router.Daemon.Prepared.{join_workgroup-Keeps}
use jack_router.Daemon.Registers.{beating}

while_stopped :
    {status : ℕ} {rest : Option Processed} {o : Option Processed} (run : Option Processed)
    → status ≢ drv_status_started
    → rest ≡ o
    → (if status == drv_status_started then run else rest) ≡ o
while_stopped run e f = ground arith

-- An idle period, over the daemon and the region with the heart beaten.
idle_call :
    (p : Period) (d : Daemon) (m : Shm) (out : Array × Array)
    → m.driver_status ≢ drv_status_started
    → process_callback p d m out
      ≡ idle_period
          (record (join_workgroup p d) { last_driver_status = m.driver_status })
          (reanchor p (join_workgroup p d) (beating m))
          out
unfolding process_callback
idle_call p d m out h = while_stopped _ h refl

not_reanchored :
    (p : Period) (d : Daemon) (m : Shm) → m.driver_status ≢ drv_status_started → reanchor p d m ≡ m
unfolding reanchor
not_reanchored p d m h = ground arith

bzero_overruns : (a : Array) (i n : ℕ) → i ≤ a.size → a.size < i + n → bzero a i n ≡ none
unfolding bzero
bzero_overruns a i zero h k = ground arith
bzero_overruns a i (suc n) h k = elim (Bool-cases (ltb i a.size)) [
  | inl lt ↦ rw (store-some a i 0 (ltb→lt _ _ lt)) (
      bzero_overruns (record a { cell = update a.cell i 0 }) (i + 1) n
        (omega (arith, ltb→lt _ _ lt)) (omega arith))
  | inr ge ↦ rw (store-out_of_bounds a i 0 (ground (arith, ge))) refl
]

zeroed :
    (n : ℕ) (l r : Array)
    → n ≤ l.size
    → n ≤ r.size
    → (l' r' : Array) × (silence n (l, r) ≡ some (l', r'))
      × Filled l 0 n (λ _. 0) l'
      × Filled r 0 n (λ _. 0) r'
unfolding silence
zeroed n l r hl hr =
    let (l', e, f) = bzero-Filled l 0 n (omega arith) in
    let (r', g, h) = bzero-Filled r 0 n (omega arith) in (l', r', rw (e, g) refl, f, h)

overrun : (n : ℕ) (l r : Array) → l.size < n → silence n (l, r) ≡ none
unfolding silence
overrun n l r h = rw (bzero_overruns l 0 n (omega arith) (omega arith)) refl

idle_some :
    (d : Daemon) (m : Shm) (out out' : Array × Array)
    → silence_outputs out ≡ some out'
    → idle_period d m out ≡ some (record { daemon = d; shm = m; out = out'; trace = none })
unfolding idle_period
idle_some d m out out' e = rw e refl

idle_none :
    (d : Daemon) (m : Shm) (out : Array × Array)
    → silence_outputs out ≡ none
    → idle_period d m out ≡ none
unfolding idle_period
idle_none d m out e = rw e refl

-- While the driver is not started, a call fills 8192 samples of both output ports with silence,
-- whatever the size of the period; the cursor stays, and of the region only the heartbeat changes.
pub process_callback_idle :
    (p : Period) (d : Daemon) (m : Shm) (l r : Array)
    → m.driver_status ≢ drv_status_started
    → 8192 ≤ l.size
    → 8192 ≤ r.size
    → (o : Processed) × (process_callback p d m (l, r) ≡ some o)
      × (o.daemon.frame_number ≡ d.frame_number)
      × (o.shm ≡ record m { daemon_alive = u64 (m.daemon_alive + 1) })
      × Filled l 0 8192 (λ _. 0) o.out.0
      × Filled r 0 8192 (λ _. 0) o.out.1
unfolding silence_outputs
process_callback_idle p d m l r h hl hr =
    let joined = join_workgroup p d in
    let (l', r', e, f, g) = zeroed 8192 l r hl hr in
    (
      record {
        daemon = record joined { last_driver_status = m.driver_status };
        shm = reanchor p joined (beating m);
        out = (l', r');
        trace = none;
      },
      idle_call p d m (l, r) h ∙ idle_some _ _ (l, r) (l', r') e,
      (join_workgroup-Keeps p d).same_frame,
      not_reanchored p joined (beating m) h,
      f,
      g,
    )

-- A port buffer of less than 8192 samples, the length that JACK gives a shorter period, is overrun by
-- the silence of an idle call.
pub process_callback_overruns :
    (p : Period) (d : Daemon) (m : Shm) (l r : Array)
    → m.driver_status ≢ drv_status_started
    → l.size < 8192
    → process_callback p d m (l, r) ≡ none
unfolding silence_outputs
process_callback_overruns p d m l r h hl =
    idle_call p d m (l, r) h ∙ idle_none _ _ (l, r) (overrun 8192 l r hl)
