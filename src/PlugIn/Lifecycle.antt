-- ===== src/PlugIn/Lifecycle.antt =====
-- How the driver comes up and goes down: the constructor, Activate and Deactivate of SA_Device, and
-- SA_PlugIn's StaticInitializer, Activate, Deactivate and device list.
use jack_router.Common.{
  ℕ, zero, suc, ◌+◌, true, false, ◌==◌, if◌then◌else◌, Option, none, some, List, [], ◌∷◌, ◌++◌, map,
}
use jack_router.Common.Array.{update}
use jack_router.Common.Float.{Float64}
use jack_router.Shm.{Shm, Kernel, Answers, num_input_streams, num_output_streams, drv_status_init}
use jack_router.Device.{Device, Error, hw_open, hw_close}
use jack_router.Objects.{
  ObjectMap, get_next_object_id, map_object, unmap_object, copy_object_by_object_id, release_object,
}
use jack_router.PlugIn.{Contents, Driver}
use jack_router.PlugIn.Methods.{put}

-- The ID of the plug-in object, kAudioObjectPlugInObject.
abbrev pub plug_in_object_id : ℕ
plug_in_object_id = 1

-- What the system gives while one device is made: the memory of `new`, and what `_HW_Open` reads.
pub record Opening (Value : Type 0) : Type 0 where
  pub address : ℕ
  pub memory : Device Value
  pub creating : Answers
  pub attaching : Answers
  pub plist : Option (Option ℕ)
  pub region : Shm
  pub kernel : Kernel
  pub numer : ℕ
  pub denom : ℕ

-- The constructor's loops: `count` IDs, from the index `i` on.
unfoldable pub next_ids : ℕ → ℕ → (ℕ → ℕ) → ObjectMap → (ℕ → ℕ) × ObjectMap
unfolding get_next_object_id
next_ids zero i ids m = (ids, m)
next_ids (suc count) i ids m =
    let (id, m') = get_next_object_id m in next_ids count (i + 1) (update ids i id) m'

-- The loops of Activate and Deactivate, over the IDs of `count` streams.
unfoldable pub map_ids : ℕ → ℕ → (ℕ → ℕ) → ℕ → ObjectMap → ObjectMap
unfolding map_object
map_ids zero i ids object m = m
map_ids (suc count) i ids object m =
    map_ids count (i + 1) ids object (map_object (ids i) object m).1

unfoldable pub unmap_ids : ℕ → ℕ → (ℕ → ℕ) → ℕ → ObjectMap → ObjectMap
unfolding unmap_object
unmap_ids zero i ids object m = m
unmap_ids (suc count) i ids object m =
    unmap_ids count (i + 1) ids object (unmap_object (ids i) object m)

-- `_RemoveDevice` erases the first entry with the ID.
abbrev pub erase_id : ℕ → List ℕ → List ℕ
erase_id id [] = []
erase_id id (i ∷ is) = if id == i then is else i ∷ erase_id id is

module _ {Value : Type 0} where
  unfoldable pub new_device : ℕ → Device Value → ObjectMap → Device Value × ObjectMap
  unfolding next_ids
  new_device id memory m =
      let (inputs, m') = next_ids num_input_streams 0 memory.input_stream_object_id m in
      let (outputs, m'') = next_ids num_output_streams 0 memory.output_stream_object_id m' in
      (
        record memory {
          object_id = id;
          is_active = false;
          start_count = 0;
          sample_rate_shadow = 48000;
          ring_buffer_frame_size = 0;
          driver_status = drv_status_init;
          device_is_alive = true;
          last_daemon_alive = 0;
          last_daemon_alive_host_time = 0;
          input_stream_object_id = inputs;
          input_stream_is_active = λ i. true;
          output_stream_object_id = outputs;
          output_stream_is_active = λ i. true;
          health_cycle_count = 0;
          health_last_host_time = 0;
          health_max_n_frames = 0;
          health_near_miss = 0;
          health_lead_jitter = 0;
          safety_offset_frames = 0;
        },
        m'',
      )

  -- SA_Device::Deactivate
  unfoldable pub deactivate_device : ℕ → Driver Value → Driver Value
  unfolding unmap_ids hw_close
  deactivate_device o s =
      let d = s.contents.device o in
      let m = unmap_ids num_input_streams 0 d.input_stream_object_id o s.objects in
      record {
        objects = unmap_ids num_output_streams 0 d.output_stream_object_id o m;
        contents = put o (hw_close (record d { is_active = false })) (s.contents.shm o) s.contents;
      }

  abbrev pub with_objects : ObjectMap → Driver Value → Driver Value
  with_objects m s = record s { objects = m }

  abbrev pub with_contents : Contents Value → Driver Value → Driver Value
  with_contents c s = record s { contents = c }

  -- The block that `_RemoveAllDevices` dispatches for one ID; the second release is the releaser's.
  unfoldable pub remove_dead_device : ℕ → Driver Value → Driver Value
  unfolding copy_object_by_object_id deactivate_device release_object
  remove_dead_device id s =
      let (object, held) = copy_object_by_object_id id s.objects in
      if object == 0
      then with_objects held s
      else (let s' = deactivate_device object (with_objects held s) in
          with_objects (release_object object (release_object object s'.objects).1).1 s')

  unfoldable pub remove_dead_devices : List ℕ → Driver Value → Driver Value
  unfolding remove_dead_device
  remove_dead_devices [] s = s
  remove_dead_devices (id ∷ ids) s = remove_dead_devices ids (remove_dead_device id s)

  -- SA_PlugIn::Deactivate, and then the blocks, in their order on the serial queue.
  unfoldable pub deactivate_plug_in : Driver Value → Driver Value
  unfolding remove_dead_devices
  deactivate_plug_in s = remove_dead_devices s.contents.device_ids (
      with_contents
        (record (s.contents) {
          is_active = false;
          device_ids = map (λ id. 0) s.contents.device_ids;
        })
        s)

  unfoldable pub add_device : ℕ → Contents Value → Contents Value
  add_device o c =
      if o == 0 then c else record c { device_ids = c.device_ids ++ (c.device o).object_id ∷ [] }

  unfoldable pub remove_device : ℕ → Contents Value → Contents Value
  remove_device o c =
      if o == 0 then c else record c { device_ids = erase_id (c.device o).object_id c.device_ids }

  -- What follows Activate: on an exception the device is dropped.
  unfoldable pub after_activate : ℕ → Option Error × Driver Value → Driver Value
  unfolding release_object
  after_activate o (none, s) = s
  after_activate o (some e, s) = record {
    objects = (release_object o s.objects).1;
    contents = remove_device o s.contents;
  }

module _ (F : Float64) where
  open F use {Value, of_u64, mul, div}

  -- SA_Device::Activate, with the error that it throws.
  unfoldable pub activate_device : Opening Value → Driver Value → Option Error × Driver Value
  unfolding hw_open map_ids
  activate_device w s =
      let o = w.address in
      let opened = hw_open w.creating w.attaching w.plist (s.contents.device o) w.region w.kernel in
      elim opened.error [
        | some e ↦ (some e, with_contents (put o opened.device opened.shm s.contents) s)
        | none ↦
            let d = opened.device in
            let m = map_ids num_input_streams 0 d.input_stream_object_id o s.objects in
            let active = record d {
              is_active = true;
              host_ticks_per_frame =
                  div (mul (div (of_u64 w.denom) (of_u64 w.numer)) (of_u64 1_000_000_000))
                    (of_u64 d.sample_rate_shadow);
            } in
            (
              none,
              record {
                objects = map_ids num_output_streams 0 d.output_stream_object_id o m;
                contents = put o active opened.shm s.contents;
              },
            )
      ]

  -- One round of `_CreateDevices`, and the loop.
  unfoldable pub create_device : Opening Value → Driver Value → Driver Value
  unfolding get_next_object_id new_device map_object add_device activate_device after_activate
  create_device w s =
      let o = w.address in
      let (id, m) = get_next_object_id s.objects in
      let (d, m') = new_device id w.memory m in
      let made = put o d (s.contents.shm o) s.contents in
      after_activate o (
        activate_device w
          (record { objects = (map_object id o m').1; contents = add_device o made }))

  unfoldable pub create_devices : List (Opening Value) → Driver Value → Driver Value
  unfolding create_device
  create_devices [] s = s
  create_devices (w ∷ ws) s = create_devices ws (create_device w s)

  -- SA_PlugIn::Activate: one device.
  unfoldable pub activate_plug_in : Opening Value → Driver Value → Driver Value
  unfolding create_devices
  activate_plug_in w s =
      let s' = create_devices (w ∷ []) s in
      with_contents (record (s'.contents) { is_active = true }) s'

  -- `object` is the address of the new plug-in.
  unfoldable pub static_initializer : ℕ → Opening Value → Driver Value → Driver Value
  unfolding map_object activate_plug_in
  static_initializer object w s = activate_plug_in w (record {
    objects = (map_object plug_in_object_id object s.objects).1;
    contents = record (s.contents) { plug_in = object; is_active = false; device_ids = [] };
  })
