-- ===== src/Device/Watchdog.antt =====
-- The watch over the daemon: what the HAL is told while the heartbeat goes on or stops.
use jack_router.Common.{
  ℕ, ◌+◌, ◌-◌, ◌^◌, ltb, u64, ◌≤◌, ◌<◌, ◌≡◌, ◌≢◌, ◌⊎◌, refl, ap, sym, ◌∙◌, arith, Bool, true, false,
  not, ◌||◌, ==_refl, Bool-cases, inl, inr, if◌then◌else◌, List, [], ◌∷◌, ◌++◌,
}
use jack_router.Common.Float.{Float64}
use jack_router.Device.{Device}
use jack_router.Device.Clock.{Notice, is_alive_changed, heartbeat, is_watching, is_stale}

-- What clients believe of DeviceIsAlive after these notices.
abbrev pub told : List Notice → Bool → Bool
told [] alive = alive
told (is_alive_changed ∷ ns) alive = told ns (not alive)

told-append : (xs ys : List Notice) (b : Bool) → told (xs ++ ys) b ≡ told ys (told xs b)
told-append [] ys b = refl
told-append (is_alive_changed ∷ xs) ys b = told-append xs ys (not b)

-- The difference of two times of a 64-bit clock, where the later one is not before the earlier one.
since : (beat now : ℕ) → beat ≤ now → now < 2 ^ 64 → u64 (now + 2 ^ 64 - beat) ≡ now - beat
since beat now h b = omega arith

module _ (F : Float64) where
  open F use {Value, positive}

  -- A poll reads the host clock and the daemon's counter.
  pub record Poll : Type 0 where
    pub now : ℕ
    pub alive : ℕ

  pub watch : Device Value → List Poll → Device Value × List Notice
  watch d [] = (d, [])
  watch d (p ∷ ps) =
      let (d', ns) = heartbeat F p.now p.alive d in let (d'', ns') = watch d' ps in (d'', ns ++ ns')

  heartbeat-told :
      (now alive : ℕ) (d : Device Value)
      → let (d', ns) = heartbeat F now alive d in d'.device_is_alive ≡ told ns d.device_is_alive
  unfolding heartbeat
  heartbeat-told now alive d = ground arith

  -- Over any polls, the notices sent are exactly the changes of DeviceIsAlive: whoever counts them
  -- from the first value knows the last one.
  pub watch-told :
      (d : Device Value) (ps : List Poll)
      → let (d', ns) = watch d ps in d'.device_is_alive ≡ told ns d.device_is_alive
  unfolding watch
  watch-told d [] = refl
  watch-told d (p ∷ ps) =
      let (d', ns) = heartbeat F p.now p.alive d in
      watch-told d' ps
      ∙ ap (told (watch d' ps).1) (heartbeat-told p.now p.alive d)
      ∙ sym (told-append ns (watch d' ps).1 d.device_is_alive)

  -- Polls at these times that find the counter where it was.
  abbrev pub stalled : Device Value → List ℕ → List Poll
  stalled d [] = []
  stalled d (now ∷ later) = record { now = now; alive = d.last_daemon_alive } ∷ stalled d later

  abbrev pub any_stale : Device Value → List ℕ → Bool
  any_stale d [] = false
  any_stale d (now ∷ later) = is_stale F now d || any_stale d later

  abbrev pub dead : Device Value → Device Value
  dead d = record d { device_is_alive = false }

  watch-dead : (d : Device Value) (times : List ℕ) → watch (dead d) (stalled d times) ≡ (dead d, [])
  unfolding watch heartbeat
  watch-dead d [] = refl
  watch-dead d (now ∷ later) = ground (arith, watch-dead d later, ==_refl d.last_daemon_alive)

  stale_poll :
      (d : Device Value) (now : ℕ)
      → is_watching F d ≡ true
      → heartbeat F now d.last_daemon_alive d
        ≡ (if is_stale F now d then (dead d, is_alive_changed ∷ []) else (d, []))
  unfolding heartbeat
  stale_poll d now h = rw (==_refl d.last_daemon_alive, h)

  stalled_polls :
      (d : Device Value) (times : List ℕ)
      → is_watching F d ≡ true
      → watch d (stalled d times)
        ≡ (if any_stale d times then (dead d, is_alive_changed ∷ []) else (d, []))
  unfolding watch
  stalled_polls d [] h = refl
  stalled_polls d (now ∷ later) h = elim (Bool-cases (is_stale F now d)) [
    | inl e ↦ ground (arith, stale_poll d now h, watch-dead d later)
    | inr e ↦ ground (arith, stale_poll d now h, stalled_polls d later h)
  ]

  -- The host ticks of five rounds of the ring.
  abbrev pub five_rings : Device Value → ℕ
  five_rings d =
      F.to_u64
        (F.mul (F.of_u64 5) (F.mul d.host_ticks_per_frame (F.of_u64 d.ring_buffer_frame_size)))

  -- Every poll comes at the last beat or after it, and the clock is 64 bits wide.
  abbrev pub Follows : Device Value → List ℕ → Type 0
  Follows d [] = Unit
  Follows d (now ∷ later) = (d.last_daemon_alive_host_time ≤ now) × (now < 2 ^ 64) × Follows d later

  abbrev pub OneLate : Device Value → List ℕ → Type 0
  OneLate d [] = ⊥
  OneLate d (now ∷ later) = (d.last_daemon_alive_host_time + five_rings d < now) ⊎ OneLate d later

  abbrev pub NoneLate : Device Value → List ℕ → Type 0
  NoneLate d [] = Unit
  NoneLate d (now ∷ later) = (now ≤ d.last_daemon_alive_host_time + five_rings d) × NoneLate d later

  stale_cases :
      (d : Device Value) (now : ℕ)
      → d.last_daemon_alive_host_time ≤ now
      → now < 2 ^ 64
      → ((d.last_daemon_alive_host_time + five_rings d < now) × (is_stale F now d ≡ true))
        ⊎ ((now ≤ d.last_daemon_alive_host_time + five_rings d) × (is_stale F now d ≡ false))
  stale_cases d now a b =
      let same = since d.last_daemon_alive_host_time now a b in
      elim (Bool-cases (ltb (five_rings d) (now - d.last_daemon_alive_host_time))) [
        | inl e ↦ inl (ground arith, rw same e)
        | inr e ↦ inr (ground arith, rw same e)
      ]

  late_cases :
      (d : Device Value) (times : List ℕ)
      → Follows d times
      → (OneLate d times × (any_stale d times ≡ true))
        ⊎ (NoneLate d times × (any_stale d times ≡ false))
  late_cases d [] f = inr (tt, refl)
  late_cases d (now ∷ later) (after, fits, f) = elim (stale_cases d now after fits) [
    | inl (late, e) ↦ inl (inl late, rw e refl)
    | inr (early, e) ↦ elim (late_cases d later f) [
      | inl (late, g) ↦ inl (inr late, rw (e, g) refl)
      | inr (none, g) ↦ inr ((early, none), rw (e, g) refl)
    ]
  ]

  -- While the counter stands still, a live device with a ring and a clock that has had a first beat is
  -- declared dead if one of the polls comes more than five rounds of the ring after the last beat:
  -- then there is one notice, whatever polls follow; if none does, nothing happens at all. The polls
  -- do not come before the last beat.
  pub watch-stalled :
      (d : Device Value) (times : List ℕ)
      → d.device_is_alive ≡ true
      → 0 < d.ring_buffer_frame_size
      → d.last_daemon_alive_host_time ≢ 0
      → positive (F.mul d.host_ticks_per_frame (F.of_u64 d.ring_buffer_frame_size)) ≡ true
      → Follows d times
      → (OneLate d times × (watch d (stalled d times) ≡ (dead d, is_alive_changed ∷ [])))
        ⊎ (NoneLate d times × (watch d (stalled d times) ≡ (d, [])))
  watch-stalled d times alive ring beat ticks f =
      let polls = stalled_polls d times (is_watched d alive ring beat ticks) in
      elim (late_cases d times f) [
        | inl (late, e) ↦ inl (late, rw e at polls)
        | inr (none, e) ↦ inr (none, rw e at polls)
      ]
    where
      is_watched :
          (d : Device Value)
          → d.device_is_alive ≡ true
          → 0 < d.ring_buffer_frame_size
          → d.last_daemon_alive_host_time ≢ 0
          → positive (F.mul d.host_ticks_per_frame (F.of_u64 d.ring_buffer_frame_size)) ≡ true
          → is_watching F d ≡ true
      is_watched d alive ring beat ticks = ground arith

  -- The first beat after a stall brings the device back, whatever state it was in, and from the dead
  -- with one notice; the watch then starts from that beat.
  pub heartbeat_resumes :
      (d : Device Value) (now alive : ℕ)
      → alive ≢ d.last_daemon_alive
      → let (d', ns) = heartbeat F now alive d in
        (d'.device_is_alive ≡ true)
        × (ns ≡ (if d.device_is_alive then [] else is_alive_changed ∷ []))
        × (d'.last_daemon_alive ≡ alive)
        × (d'.last_daemon_alive_host_time ≡ now)
  unfolding heartbeat
  heartbeat_resumes d now alive h = ground arith
