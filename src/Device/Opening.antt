-- ===== src/Device/Opening.antt =====
-- What _HW_Open leaves behind.
use jack_router.Common.{ℕ, ◌≡◌, arith, Option, none, some, ◌⊎◌}
use jack_router.Shm.{Shm, Kernel, Answers, protocol_version, drv_status_init}
use jack_router.Device.{Device, bad_device, not_running, hw_open, start_io}
use jack_router.Device.Running.{IsRunning}

module _ {Value : Type 0} (zero_value : Value) where
  -- An open that throws nothing leaves a device that is ready to start: the region holds this
  -- version, the ring is 4096 frames, and the status is ACTIVE on both sides.
  pub hw_open-IsRunning :
      (creating attaching : Answers) (plist : Option (Option ℕ)) (d : Device Value) (m : Shm)
      (k : Kernel)
      → d.start_count ≡ 0
      → (hw_open creating attaching plist d m k).error ≡ none
      → let o = hw_open creating attaching plist d m k in
        IsRunning zero_value (o.device, o.shm)
        × (o.shm.version ≡ protocol_version)
        × (o.device.ring_buffer_frame_size ≡ 4096)
  unfolding hw_open
  hw_open-IsRunning creating attaching plist d m k z e = ground arith

  -- An open that throws leaves a new device closed: the error is BadDevice, and a start is refused
  -- with NotRunning, without being counted.
  pub hw_open_failed :
      (creating attaching : Answers) (plist : Option (Option ℕ)) (d : Device Value) (m : Shm)
      (k : Kernel) (now : ℕ)
      → d.start_count ≡ 0
      → d.driver_status ≡ drv_status_init
      → ((hw_open creating attaching plist d m k).error ≡ none)
        ⊎ (let o = hw_open creating attaching plist d m k in
            let (e, d', m') = start_io zero_value now o.device o.shm in
            (o.error ≡ some bad_device)
            × (e ≡ some not_running)
            × (d'.start_count ≡ 0)
            × (m' ≡ o.shm))
  unfolding hw_open start_io
  hw_open_failed creating attaching plist d m k now z i = ground arith
