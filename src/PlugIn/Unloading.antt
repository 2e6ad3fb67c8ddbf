-- ===== src/PlugIn/Unloading.antt =====
-- SA_PlugIn::Deactivate, with the block that it dispatches for the device.
use jack_router.Common.{
  ℕ, ◌≡◌, ◌≢◌, refl, sym, ap, ◌∙◌, ◌==◌, if◌then◌else◌, arith, false, List, [], ◌∷◌, map,
}
use mathlib.Core.Path.{subst}
use jack_router.Shm.{drv_status_init}
use jack_router.Device.{hw_close}
use jack_router.Objects.{
  ObjectMap, ObjectInfo, unmap_object, copy_object_by_object_id, release_object,
}
use jack_router.PlugIn.{Contents, Driver}
use jack_router.PlugIn.Methods.{put}
use jack_router.PlugIn.Lifecycle.{
  with_objects, unmap_ids, deactivate_device, remove_dead_device, remove_dead_devices,
  deactivate_plug_in,
}
use jack_router.PlugIn.Activation.{plug_in_info, two_objects, one_object, IsUp}

-- The map with the device's entry as given.
abbrev with_entry : ℕ → ObjectInfo → ObjectMap
with_entry object x = record {
  next_object_id = 36;
  infos = plug_in_info object ∷ x ∷ [];
  destroyed = [];
}

abbrev held : ℕ → List ℕ → ℕ → ObjectInfo
held o ids count = record { object = o; reference_count = count; ids = ids }

module _ (object o : ℕ) (ne : o ≢ 0) (d : object ≢ o) where
  copies_device :
      copy_object_by_object_id 32 (two_objects object o)
      ≡ (o, with_entry object (held o (32 ∷ 33 ∷ 34 ∷ 35 ∷ []) 2))
  unfolding copy_object_by_object_id
  copies_device = ground arith

  unmaps_streams :
      (inputs outputs : ℕ → ℕ)
      → inputs 0 ≡ 33
      → inputs 1 ≡ 34
      → outputs 0 ≡ 35
      → unmap_ids 1 0 outputs o
          (unmap_ids 2 0 inputs o (with_entry object (held o (32 ∷ 33 ∷ 34 ∷ 35 ∷ []) 2)))
        ≡ with_entry object (held o (32 ∷ []) 2)
  unfolding unmap_ids unmap_object
  unmaps_streams inputs outputs i₀ i₁ o₀ = ground arith

  releases_twice :
      (release_object o (release_object o (with_entry object (held o (32 ∷ []) 2))).1).1
      ≡ one_object object o
  unfolding release_object
  releases_twice = ground arith

nonzero : (o : ℕ) → o ≢ 0 → o == 0 ≡ false
nonzero o ne = ground arith

module _ {Value : Type 0} where
  -- The device is dead, and its ID on the plug-in's list is 0.
  pub record IsDown (object o : ℕ) (s : Driver Value) : Type 0 where
    pub objects : s.objects ≡ one_object object o
    pub device_ids : s.contents.device_ids ≡ 0 ∷ []
    pub inactive : s.contents.is_active ≡ false
    pub device_inactive : (s.contents.device o).is_active ≡ false
    pub closed : (s.contents.device o).driver_status ≡ drv_status_init

  abbrev dead : ℕ → Contents Value → Contents Value
  dead o c = put o (hw_close (record (c.device o) { is_active = false })) (c.shm o) c

  abbrev put_down : ℕ → Driver Value → Driver Value
  put_down o s = with_objects (release_object o (release_object o s.objects).1).1 s

  removes :
      (id o : ℕ) (kept m : ObjectMap) (s : Driver Value)
      → copy_object_by_object_id id s.objects ≡ (o, kept)
      → o == 0 ≡ false
      → unmap_ids 1 0
          (s.contents.device o).output_stream_object_id
          o
          (unmap_ids 2 0 (s.contents.device o).input_stream_object_id o kept)
        ≡ m
      → remove_dead_device id s ≡ record {
        objects = (release_object o (release_object o m).1).1;
        contents = dead o s.contents;
      }
  unfolding remove_dead_device deactivate_device
  removes id o kept m s copied ne unmapped =
      ap
        (λ r.
          if r.0 == 0
          then with_objects r.1 s
          else put_down r.0 (deactivate_device r.0 (with_objects r.1 s)))
        copied
      ∙ ap
          (λ b.
            if b
            then with_objects kept s
            else put_down o (deactivate_device o (with_objects kept s)))
          ne
      ∙ ap
          (λ m'. record {
            objects = (release_object o (release_object o m').1).1;
            contents = dead o s.contents;
          })
          unmapped

  dies :
      (object o : ℕ) (c : Contents Value)
      → o ≢ 0
      → object ≢ o
      → (c.device o).input_stream_object_id 0 ≡ 33
      → (c.device o).input_stream_object_id 1 ≡ 34
      → (c.device o).output_stream_object_id 0 ≡ 35
      → remove_dead_device 32 (record { objects = two_objects object o; contents = c })
        ≡ record { objects = one_object object o; contents = dead o c }
  dies object o c ne d i₀ i₁ o₀ =
      let x = c.device o in
      removes 32 o (with_entry object (held o (32 ∷ 33 ∷ 34 ∷ 35 ∷ []) 2))
        (with_entry object (held o (32 ∷ []) 2))
        (record { objects = two_objects object o; contents = c }) (copies_device object o ne d)
        (nonzero o ne)
        (unmaps_streams object o ne d x.input_stream_object_id x.output_stream_object_id i₀ i₁ o₀)
      ∙ ap (λ m. record { objects = m; contents = dead o c }) (releases_twice object o ne d)

  -- The plug-in's own fields once it is inactive.
  abbrev down : Contents Value → List ℕ → Contents Value
  down c is = record c { is_active = false; device_ids = is }

  is_down :
      (object o : ℕ) (c : Contents Value)
      → c.device_ids ≡ 0 ∷ []
      → c.is_active ≡ false
      → IsDown object o (record { objects = one_object object o; contents = dead o c })
  unfolding hw_close
  is_down object o c ids inactive = ground arith

  -- Deactivating the plug-in destroys its device and frees all four IDs, and the device is closed; but
  -- the list of devices still has an entry, with the ID 0.
  pub deactivate_plug_in-IsDown :
      (object o : ℕ) (s : Driver Value)
      → o ≢ 0
      → object ≢ o
      → IsUp object o s
      → IsDown object o (deactivate_plug_in s)
  unfolding deactivate_plug_in remove_dead_devices
  deactivate_plug_in-IsDown object o s ne d u =
      let c = down s.contents (0 ∷ []) in
      let (i₀, i₁) = u.inputs in
      let ids =
        ap
          (λ is.
            remove_dead_devices is
              (record { objects = s.objects; contents = down s.contents (map (λ id. 0) is) }))
          u.device_ids in
      let from_two =
        ap (λ m. remove_dead_device 32 (record { objects = m; contents = c })) u.objects in
      subst (IsDown object o) (sym (ids ∙ from_two ∙ dies object o c ne d i₀ i₁ u.outputs))
        (is_down object o c refl refl)
