-- ===== src/Device/Running.antt =====
-- Starting and stopping IO is reference counted: SA_Device::StartIO and StopIO.
use jack_router.Common.{
  ℕ, ◌+◌, ◌-◌, ◌≤◌, ◌<◌, ◌≡◌, ◌⊎◌, refl, ap, ◌∙◌, arith, ◌==◌, if◌then◌else◌, List, [], ◌∷◌,
}
use jack_router.Device.{Device, start_io, stop_io}
use jack_router.Objects.{uint64_max}
use jack_router.Shm.{Shm, drv_status_active, drv_status_started}

-- A client of the HAL starts or stops IO; the number is the host time.
pub data Client : Type 0 where
  starts : ℕ → Client
  stops : Client

-- The starts that no stop has met yet; a stop too many is ignored, and so is a start at the maximum.
abbrev pub outstanding_after : Client → ℕ → ℕ
outstanding_after (starts now) n = if n == uint64_max then n else n + 1
outstanding_after stops n = n - 1

abbrev pub outstanding : List Client → ℕ → ℕ
outstanding [] n = n
outstanding (c ∷ cs) n = outstanding cs (outstanding_after c n)

module _ {Value : Type 0} (zero_value : Value) where
  abbrev pub State : Type 0
  State = Device Value × Shm

  unfoldable pub call : State → Client → State
  unfolding start_io stop_io
  call (d, m) (starts now) = let (e, d', m') = start_io zero_value now d m in (d', m')
  call (d, m) stops = stop_io d m

  unfoldable pub calls : State → List Client → State
  calls s [] = s
  calls s (c ∷ cs) = calls (call s c) cs

  -- The driver runs exactly while clients have IO started, and the region says so too.
  pub record IsRunning (s : State) : Type 0 where
    pub same_status : s.1.driver_status ≡ s.0.driver_status
    pub status :
        ((s.0.start_count ≡ 0) × (s.0.driver_status ≡ drv_status_active))
        ⊎ ((0 < s.0.start_count) × (s.0.driver_status ≡ drv_status_started))
    pub count_fits : s.0.start_count ≤ uint64_max

  call-IsRunning : (s : State) (c : Client) → IsRunning s → IsRunning (call s c)
  unfolding call
  call-IsRunning (d, m) (starts now) v = ground arith
  call-IsRunning (d, m) stops v = ground arith

  calls-IsRunning : (s : State) (cs : List Client) → IsRunning s → IsRunning (calls s cs)
  unfolding calls
  calls-IsRunning s [] v = v
  calls-IsRunning s (c ∷ cs) v = calls-IsRunning (call s c) cs (call-IsRunning s c v)

  start_count-call :
      (s : State) (c : Client)
      → IsRunning s
      → (call s c).0.start_count ≡ outstanding_after c s.0.start_count
  unfolding call
  start_count-call (d, m) (starts now) v = ground arith
  start_count-call (d, m) stops v = ground arith

  start_count-calls :
      (s : State) (cs : List Client)
      → IsRunning s
      → (calls s cs).0.start_count ≡ outstanding cs s.0.start_count
  unfolding calls
  start_count-calls s [] v = refl
  start_count-calls s (c ∷ cs) v =
      start_count-calls (call s c) cs (call-IsRunning s c v)
      ∙ ap (outstanding cs) (start_count-call s c v)

  -- After any sequence of `StartIO` and `StopIO` on an opened device, its count is the number of
  -- starts outstanding, and the device and the region say STARTED if that is not 0, ACTIVE if it is.
  pub status-calls :
      (s : State) (cs : List Client)
      → IsRunning s
      → let (d, m) = calls s cs in
        let n = outstanding cs s.0.start_count in
        (d.start_count ≡ n)
        × (d.driver_status ≡ (if n == 0 then drv_status_active else drv_status_started))
        × (m.driver_status ≡ (if n == 0 then drv_status_active else drv_status_started))
  status-calls s cs v =
      let r = calls-IsRunning s cs v in
      let e = start_count-calls s cs v in
      (e, ground (arith, r.status), ground (arith, r.status, r.same_status))
