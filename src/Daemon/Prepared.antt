-- ===== src/Daemon/Prepared.antt =====
-- process_callback before the samples move: the counters, the activation and the time stamp.
use jack_router.Common.{
  ℕ, ◌≡◌, refl, ◌∙◌, arith, inl, inr, Bool-cases, true, ◌&&◌, ltb, if◌then◌else◌,
}
use jack_router.Shm.{Shm}
use jack_router.Client.{Daemon, Period, join_workgroup}
use jack_router.Health.{trace_health, note_margin}
use jack_router.Daemon.{activate, mark_zero_time, count_call}

-- Where the period works: a first period starts at 0.
abbrev pub cursor : Daemon → ℕ
cursor d = if d.is_active then d.frame_number else 0

-- The counters and the workgroup leave the cursor alone.
pub record Keeps (d c : Daemon) : Type 0 where
  pub same_frame : c.frame_number ≡ d.frame_number
  pub same_active : c.is_active ≡ d.is_active
  pub same_mode : c.is_sync_mode ≡ d.is_sync_mode

pub note_margin-Keeps : (head : ℕ) (d : Daemon) → Keeps d (note_margin head d)
unfolding note_margin
note_margin-Keeps head d = elim (Bool-cases (ltb 0 head && d.is_active)) [
  | inl e ↦ rw e (record { same_frame = refl; same_active = refl; same_mode = refl })
  | inr e ↦ rw e (record { same_frame = refl; same_active = refl; same_mode = refl })
]

pub trace_health-Keeps : (d : Daemon) → Keeps d (trace_health d).0
unfolding trace_health
trace_health-Keeps d = record {
  same_frame = ground arith;
  same_active = ground arith;
  same_mode = ground arith;
}

pub join_workgroup-Keeps : (p : Period) (d : Daemon) → Keeps d (join_workgroup p d)
unfolding join_workgroup
join_workgroup-Keeps p d = record {
  same_frame = ground arith;
  same_active = ground arith;
  same_mode = ground arith;
}

pub same_cursor : {d c : Daemon} → Keeps d c → cursor c ≡ cursor d
same_cursor k = rw (k.same_frame, k.same_active) refl

-- After the activation and the time stamp, before the samples move.
pub record IsPrepared (d : Daemon) (m : Shm) (c : Daemon) (m' : Shm) : Type 0 where
  pub at_cursor : c.frame_number ≡ cursor d
  pub is_active : c.is_active ≡ true
  pub same_down : m'.buf_down ≡ m.buf_down
  pub same_up : m'.buf_up ≡ m.buf_up

activated : (d : Daemon) (m : Shm) → IsPrepared d m (activate d m).0 (activate d m).1
unfolding activate
activated d m = elim (Bool-cases d.is_active) [
  | inl e ↦ record {
    at_cursor = ground arith;
    is_active = ground arith;
    same_down = ground arith;
    same_up = ground arith;
  }
  | inr e ↦ record {
    at_cursor = ground arith;
    is_active = ground arith;
    same_down = ground arith;
    same_up = ground arith;
  }
]

counted :
    (p : Period) (d c : Daemon) (m m' : Shm)
    → IsPrepared d m c m'
    → IsPrepared d m (count_call c) (mark_zero_time p c m')
unfolding mark_zero_time
counted p d c m m' i = record {
  at_cursor = ground (arith, i.at_cursor);
  is_active = ground (arith, i.is_active);
  same_down = ground (arith, i.same_down);
  same_up = ground (arith, i.same_up);
}

-- The daemon and the region when the samples move.
abbrev pub checked : ℕ → Daemon → Daemon
checked head d = (trace_health (note_margin head d)).0

abbrev pub moving : Period → ℕ → Daemon → Shm → Daemon × Shm
moving p head d m =
    let (a, m') = activate (checked head d) m in (count_call a, mark_zero_time p a m')

pub prepared :
    (p : Period) (head : ℕ) (d : Daemon) (m : Shm)
    → IsPrepared d m (moving p head d m).0 (moving p head d m).1
prepared p head d m =
    let k = note_margin-Keeps head d in
    let t = trace_health-Keeps (note_margin head d) in
    let c = checked head d in
    let i = counted p c _ m _ (activated c m) in
    record {
      at_cursor = i.at_cursor ∙ same_cursor t ∙ same_cursor k;
      is_active = i.is_active;
      same_down = i.same_down;
      same_up = i.same_up;
    }

pub checked-Keeps : (head : ℕ) (d : Daemon) → Keeps d (checked head d)
checked-Keeps head d =
    let k = note_margin-Keeps head d in
    let t = trace_health-Keeps (note_margin head d) in
    record {
      same_frame = t.same_frame ∙ k.same_frame;
      same_active = t.same_active ∙ k.same_active;
      same_mode = t.same_mode ∙ k.same_mode;
    }

pub join_same_status :
    (p : Period) (d : Daemon) → (join_workgroup p d).last_driver_status ≡ d.last_driver_status
unfolding join_workgroup
join_same_status p d = ground arith

pub cursor_active : (c : Daemon) → c.is_active ≡ true → cursor c ≡ c.frame_number
cursor_active c e = rw e refl
