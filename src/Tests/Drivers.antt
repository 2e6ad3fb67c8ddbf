-- ===== src/Tests/Drivers.antt =====
-- The HAL device, at concrete inputs.
use jack_router.Common.{
  ℕ, ◌+◌, ◌*◌, ◌%◌, ◌≡◌, ◌⊎◌, ◌&&◌, refl, arith, inl, some, none, true, if◌then◌else◌, ltb, u64,
  List, [], ◌∷◌,
}
use jack_router.Common.Array.{Array, update}
use jack_router.Shm.{drv_status_started, protocol_version}
use jack_router.Device.{hw_open}
use jack_router.Device.Running.{Client, starts, stops, IsRunning, calls, status-calls}
use jack_router.Device.Opening.{hw_open-IsRunning}
use jack_router.Device.Clock.{is_alive_changed}
use jack_router.Device.Watchdog.{
  Poll, watch, told, OneLate, NoneLate, stalled, dead, watch-told, watch-stalled,
}
use jack_router.Device.Transfer.{read_input_data, write_output_data}
use jack_router.Device.Transfer.Circular.{IsTransfer, behind}
use jack_router.Device.Transfer.Operations.{read_input_data_circular, write_output_data_circular}
use jack_router.Tests.Data.{whole, silent, counting, region, device, answers, kernel}

running : IsRunning 0 (device, region 1)
running = record { same_status = refl; status = inl (refl, refl); count_fits = omega arith }

abbrev clients : List Client
clients = starts 5 ∷ starts 6 ∷ stops ∷ []

status-calls_example :
    let (d, m) = calls 0 (device, region 1) clients in
    (d.start_count ≡ 1)
    × (d.driver_status ≡ drv_status_started)
    × (m.driver_status ≡ drv_status_started)
status-calls_example = status-calls 0 (device, region 1) clients running

hw_open-IsRunning_example :
    let o = hw_open answers answers none device (region 0) kernel in
    IsRunning 0 (o.device, o.shm)
    × (o.shm.version ≡ protocol_version)
    × (o.device.ring_buffer_frame_size ≡ 4096)
unfolding hw_open
hw_open-IsRunning_example =
    hw_open-IsRunning 0 answers answers none device (region 0) kernel refl refl

-- The threshold is 5 * 2 * 4096 ticks.
watch-stalled_example :
    (OneLate whole device (2000 ∷ 50000 ∷ 60000 ∷ [])
      × (watch whole device (stalled whole device (2000 ∷ 50000 ∷ 60000 ∷ []))
          ≡ (dead whole device, is_alive_changed ∷ [])))
    ⊎ (NoneLate whole device (2000 ∷ 50000 ∷ 60000 ∷ [])
        × (watch whole device (stalled whole device (2000 ∷ 50000 ∷ 60000 ∷ [])) ≡ (device, [])))
watch-stalled_example =
    watch-stalled whole device (2000 ∷ 50000 ∷ 60000 ∷ []) refl (omega arith) (λ e. ground arith)
      refl (omega arith, omega arith, (omega arith, omega arith, (omega arith, omega arith, tt)))

abbrev polls : List (Poll whole)
polls = record { now = 50000; alive = 7 } ∷ record { now = 60000; alive = 8 } ∷ []

watch-told_example : let (d', ns) = watch whole device polls in d'.device_is_alive ≡ told ns true
watch-told_example = watch-told whole device polls

-- 64 frames that go round the end of the ring.
room : IsTransfer (counting 8192) (silent 200) 64
room = record { ring_size = refl; frames_fit = omega arith; buffer_fits = omega arith }

read_input_data_circular_example :
    (out' : Array) × (read_input_data whole 0 64 4080
        (silent 200)
        device
        (record (region 2) { buf_down = λ _. counting 8192 })
      ≡ some (
        out',
        record (region 2) {
          buf_down = λ _. counting 8192;
          read_frame_number = update (λ _. 0) 0 (u64 (4080 + 64));
        },
      ))
    × ((k : ℕ) → out'.cell k ≡ (if ltb k (64 * 2) then (4080 * 2 + k) % 8192 + 1 else 0))
read_input_data_circular_example =
    read_input_data_circular whole 0 64 4080 (silent 200) device
      (record (region 2) { buf_down = λ _. counting 8192 }) refl room

writable : IsTransfer (counting 8192) (counting 128) 64
writable = record { ring_size = refl; frames_fit = omega arith; buffer_fits = omega arith }

write_output_data_circular_example :
    (ring : Array) × (write_output_data whole 0 64 4080 (counting 128) device (region 2)
      ≡ some (record (region 2) {
        buf_up = update (region 2).buf_up 0 ring;
        write_frame_number = update (region 2).write_frame_number 0 (u64 (4080 + 64));
      }))
    × (ring.size ≡ 8192)
    × ((k : ℕ)
        → ring.cell k
          ≡ (if ltb k 8192 && ltb (behind 4080 k) (64 * 2) then behind 4080 k + 1 else k + 1))
write_output_data_circular_example =
    write_output_data_circular whole 0 64 4080 (counting 128) device (region 2) refl writable
