-- ===== src/PlugIn/Activation.antt =====
-- The driver with its device and without, and what Activate of the device makes of the object map.
use jack_router.Common.{ℕ, ◌≡◌, ◌≢◌, arith, true, Option, none, some, [], ◌∷◌}
use jack_router.Common.Float.{Float64}
use jack_router.Device.{Device, Error, Outcome, hw_open}
use jack_router.Objects
use jack_router.Objects.{
  ObjectMap, ObjectInfo, get_next_object_id, map_object, unmap_object, copy_object_by_object_id,
  release_object,
}
use jack_router.PlugIn.{Contents, Driver}
use jack_router.PlugIn.Lifecycle.{Opening, next_ids, map_ids, new_device, activate_device}

-- The entries of the plug-in and of its device.
abbrev pub plug_in_info : ℕ → ObjectInfo
plug_in_info object = record { object = object; reference_count = 1; ids = 1 ∷ [] }

abbrev pub device_info : ℕ → ObjectInfo
device_info o = record { object = o; reference_count = 1; ids = 32 ∷ 33 ∷ 34 ∷ 35 ∷ [] }

-- Two objects: the plug-in by ID 1, and the device by the ID 32 and those of its streams.
abbrev pub two_objects : ℕ → ℕ → ObjectMap
two_objects object o = record {
  next_object_id = 36;
  infos = plug_in_info object ∷ device_info o ∷ [];
  destroyed = [];
}

-- Only the plug-in is left.
abbrev pub one_object : ℕ → ℕ → ObjectMap
one_object object o = record {
  next_object_id = 36;
  infos = plug_in_info object ∷ [];
  destroyed = o ∷ [];
}

module _ {Value : Type 0} where
  -- The driver with its device, or without.
  pub record IsUp (object o : ℕ) (s : Driver Value) : Type 0 where
    pub objects : s.objects ≡ two_objects object o
    pub plug_in : s.contents.plug_in ≡ object
    pub device_ids : s.contents.device_ids ≡ 32 ∷ []
    pub device_id : (s.contents.device o).object_id ≡ 32
    pub inputs :
        ((s.contents.device o).input_stream_object_id 0 ≡ 33)
        × ((s.contents.device o).input_stream_object_id 1 ≡ 34)
    pub outputs : (s.contents.device o).output_stream_object_id 0 ≡ 35
    pub device_active : (s.contents.device o).is_active ≡ true

  pub record IsWithout (object o : ℕ) (s : Driver Value) : Type 0 where
    pub objects : s.objects ≡ one_object object o
    pub plug_in : s.contents.plug_in ≡ object
    pub device_ids : s.contents.device_ids ≡ []

pub some_ne_none : (o : Option Error) (e : Error) → o ≡ some e → o ≢ none
some_ne_none o e h n = cc

module _ (F : Float64) where
  open F use {Value}

  -- The map when `_CreateDevices` has mapped the device and calls Activate.
  abbrev pub half_made : ℕ → ℕ → ObjectMap
  half_made object o = record {
    next_object_id = 36;
    infos = plug_in_info object ∷ record { object = o; reference_count = 1; ids = 32 ∷ [] } ∷ [];
    destroyed = [];
  }

  abbrev pub initial : Contents Value → Driver Value
  initial c = record { objects = Objects.init; contents = c }

  -- The device as `_CreateDevices` makes it, and as Activate finds it.
  abbrev pub made : Opening Value → Device Value
  made w = (new_device 32 w.memory (record { next_object_id = 33; infos = []; destroyed = [] })).0

  abbrev pub opened : Opening Value → Outcome Value
  opened w = hw_open w.creating w.attaching w.plist (made w) w.region w.kernel

  abbrev pub opening : Opening Value → Device Value → Outcome Value
  opening w d = hw_open w.creating w.attaching w.plist d w.region w.kernel

  -- The device opens, and has the IDs that follow the plug-in's.
  pub record Opens (w : Opening Value) (d : Device Value) : Type 0 where
    pub error : (opening w d).error ≡ none
    pub device_id : (opening w d).device.object_id ≡ 32
    pub input_0 : (opening w d).device.input_stream_object_id 0 ≡ 33
    pub input_1 : (opening w d).device.input_stream_object_id 1 ≡ 34
    pub output_0 : (opening w d).device.output_stream_object_id 0 ≡ 35

  pub made-Opens : (w : Opening Value) → (opened w).error ≡ none → Opens w (made w)
  unfolding hw_open new_device next_ids get_next_object_id
  made-Opens w e = ground arith

  -- Activate over a map with the device's own ID, when the device opens.
  pub activated_objects :
      (object : ℕ) (w : Opening Value) (s : Driver Value)
      → w.address ≢ 0
      → object ≢ w.address
      → s.objects ≡ half_made object w.address
      → Opens w (s.contents.device w.address)
      → (activate_device F w s).1.objects ≡ two_objects object w.address
  unfolding activate_device map_ids map_object
  activated_objects object w s ne d h o = ground arith

  pub activated_contents :
      (w : Opening Value) (s : Driver Value)
      → Opens w (s.contents.device w.address)
      → let (e, s') = activate_device F w s in
        let d = s'.contents.device w.address in
        (e ≡ none)
        × (s'.contents.plug_in ≡ s.contents.plug_in)
        × (s'.contents.device_ids ≡ s.contents.device_ids)
        × (d.object_id ≡ 32)
        × (d.input_stream_object_id 0 ≡ 33)
        × (d.input_stream_object_id 1 ≡ 34)
        × (d.output_stream_object_id 0 ≡ 35)
        × (d.is_active ≡ true)
  unfolding activate_device
  activated_contents w s o = ground arith

  -- Activate when the device does not open: nothing is mapped.
  pub not_activated :
      (w : Opening Value) (s : Driver Value) (e : Error)
      → (opening w (s.contents.device w.address)).error ≡ some e
      → let r = activate_device F w s in
        (r.0 ≡ some e)
        × (r.1.objects ≡ s.objects)
        × (r.1.contents.device_ids ≡ s.contents.device_ids)
        × ((r.1.contents.device w.address).object_id ≡ (s.contents.device w.address).object_id)
        × (r.1.contents.plug_in ≡ s.contents.plug_in)
  unfolding activate_device hw_open
  not_activated w s e h = ground arith
