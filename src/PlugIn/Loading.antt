-- ===== src/PlugIn/Loading.antt =====
-- The driver from StaticInitializer on: which IDs there are, and what becomes of the device.
use jack_router.Common.{
  ℕ, ◌≡◌, ◌≢◌, refl, sym, ap, ◌∙◌, ==_refl, arith, true, false, Option, none, some, [], ◌∷◌, ◌++◌,
  ◌⊎◌, inl, inr, Option-cases,
}
use mathlib.Core.Path.{subst}
use jack_router.Common.Float.{Float64}
use jack_router.Shm.{Shm}
use jack_router.Device.{Device, Error}
use jack_router.Objects
use jack_router.Objects.{
  ObjectMap, ObjectInfo, get_next_object_id, map_object, unmap_object, copy_object_by_object_id,
  release_object,
}
use jack_router.PlugIn.{Contents, Driver}
use jack_router.PlugIn.Methods.{put}
use jack_router.PlugIn.Lifecycle.{
  Opening, next_ids, new_device, activate_device, create_device, create_devices, after_activate,
  activate_plug_in, static_initializer, add_device, remove_device,
}
use jack_router.PlugIn.Activation.{
  half_made, initial, made, opened, opening, Opens, made-Opens, activated_objects,
  activated_contents, not_activated, plug_in_info, one_object, IsUp, IsWithout, some_ne_none,
}

module _ (F : Float64) where
  open F use {Value}

  -- The plug-in when it has been mapped.
  abbrev alone : ℕ → ObjectMap
  alone object = record { next_object_id = 32; infos = plug_in_info object ∷ []; destroyed = [] }

  -- The driver when the new device has been mapped and put on the list.
  abbrev with_device_made : ℕ → Opening Value → Contents Value → Driver Value
  with_device_made object w c = record {
    objects = half_made F object w.address;
    contents = record (put w.address (made F w) (c.shm w.address) c) {
      device_ids = c.device_ids ++ 32 ∷ [];
    };
  }

  maps_device :
      (object o : ℕ)
      → o ≢ 0
      → object ≢ o
      → (map_object 32 o
          (record { next_object_id = 36; infos = plug_in_info object ∷ []; destroyed = [] })).1
        ≡ half_made F object o
  unfolding map_object
  maps_device object o ne d = ground arith

  lists_device :
      (o : ℕ) (d : Device Value) (m : Shm) (c : Contents Value)
      → o ≢ 0
      → add_device o (put o d m c)
        ≡ record (put o d m c) { device_ids = c.device_ids ++ d.object_id ∷ [] }
  unfolding add_device
  lists_device o d m c ne = ground arith

  creates :
      (object : ℕ) (w : Opening Value) (c : Contents Value)
      → w.address ≢ 0
      → object ≢ w.address
      → create_device F w (record { objects = alone object; contents = c })
        ≡ after_activate w.address (activate_device F w (with_device_made object w c))
  unfolding create_device new_device next_ids get_next_object_id
  creates object w c ne d =
      rw
        (
          maps_device object w.address ne d,
          lists_device w.address (made F w) (c.shm w.address) c ne,
        )
        refl

  maps_plug_in : (object : ℕ) → object ≢ 0 → (map_object 1 object Objects.init).1 ≡ alone object
  unfolding map_object Objects.init
  maps_plug_in object ne = ground arith

  releases :
      (object o : ℕ)
      → o ≢ 0
      → object ≢ o
      → (release_object o (half_made F object o)).1 ≡ one_object object o
  unfolding release_object
  releases object o ne d = ground arith

  made_at :
      (object : ℕ) (w : Opening Value) (c : Contents Value)
      → (with_device_made object w c).contents.device w.address ≡ made F w
  made_at object w c = rw (==_refl w.address) refl

  keeps_result : (o : ℕ) (r : Option Error × Driver Value) → r.0 ≡ none → after_activate o r ≡ r.1
  unfolding after_activate
  keeps_result o r h = ground arith

  drops_result :
      (object o : ℕ) (r : Option Error × Driver Value) (e : Error)
      → o ≢ 0
      → object ≢ o
      → r.0 ≡ some e
      → r.1.objects ≡ half_made F object o
      → r.1.contents.plug_in ≡ object
      → r.1.contents.device_ids ≡ 32 ∷ []
      → (r.1.contents.device o).object_id ≡ 32
      → IsWithout object o (after_activate o r)
  unfolding after_activate release_object remove_device
  drops_result object o r e ne d h m p l i = ground arith

  module _ (object : ℕ) (w : Opening Value) (c : Contents Value) (ne : w.address ≢ 0)
      (d : object ≢ w.address) (p : c.plug_in ≡ object) (l : c.device_ids ≡ []) where
    finishes :
        (opened F w).error ≡ none
        → IsUp object w.address
            (create_device F w (record { objects = alone object; contents = c }))
    finishes e =
        let s = with_device_made object w c in
        let o = subst (Opens F w) (sym (made_at object w c)) (made-Opens F w e) in
        let (none_thrown, plug, ids, i, i₀, i₁, o₀, a) = activated_contents F w s o in
        let m = activated_objects F object w s ne d refl o in
        subst (IsUp object w.address)
          (sym
            (creates object w c ne d ∙ keeps_result w.address (activate_device F w s) none_thrown))
          (record {
            objects = m;
            plug_in = plug ∙ p;
            device_ids = ids ∙ ap (λ xs. xs ++ 32 ∷ []) l;
            device_id = i;
            inputs = (i₀, i₁);
            outputs = o₀;
            device_active = a;
          })

    stops_at :
        (e : Error)
        → (opened F w).error ≡ some e
        → IsWithout object w.address
            (create_device F w (record { objects = alone object; contents = c }))
    unfolding new_device
    stops_at e h =
        let s = with_device_made object w c in
        let at = made_at object w c in
        let (thrown, m, ids, i, plug) =
          not_activated F w s e (subst (λ x. (opening F w x).error ≡ some e) (sym at) h) in
        subst (IsWithout object w.address) (sym (creates object w c ne d)) (
          drops_result object w.address (activate_device F w s) e ne d thrown m (plug ∙ p)
            (ids ∙ ap (λ xs. xs ++ 32 ∷ []) l) (i ∙ ap (λ x. x.object_id) at))

  module _ (object : ℕ) (w : Opening Value) (c : Contents Value) (ne : object ≢ 0)
      (ne' : w.address ≢ 0) (d : object ≢ w.address) where
    abbrev begun : Contents Value
    begun = record c { plug_in = object; is_active = false; device_ids = [] }

    starts_from :
        create_device F w
          (record { objects = (map_object 1 object Objects.init).1; contents = begun })
        ≡ create_device F w (record { objects = alone object; contents = begun })
    starts_from =
        ap (λ m. create_device F w (record { objects = m; contents = begun }))
          (maps_plug_in object ne)

    -- Loading the plug-in ends in one of two ways. The device opens: ID 1 is the plug-in's, 32 is the
    -- device's and 33, 34 and 35 are its streams'; the device is on the list, and active. Or it does
    -- not open: the device is released and so destroyed, the list is empty, and only the plug-in is
    -- left in the map. The plug-in is active either way.
    pub static_initializer_cases :
        let s = static_initializer F object w (initial F c) in
        (s.contents.is_active ≡ true)
        × ((((opened F w).error ≡ none) × IsUp object w.address s)
            ⊎ (((opened F w).error ≢ none) × IsWithout object w.address s))
    unfolding static_initializer activate_plug_in create_devices
    static_initializer_cases = elim (Option-cases (opened F w).error) [
      | inl e ↦
          let u =
            subst (IsUp object w.address) (sym starts_from)
              (finishes object w begun ne' d refl refl e) in
          (
            refl,
            inl (
              e,
              record {
                objects = u.objects;
                plug_in = u.plug_in;
                device_ids = u.device_ids;
                device_id = u.device_id;
                inputs = u.inputs;
                outputs = u.outputs;
                device_active = u.device_active;
              },
            ),
          )
      | inr (e, h) ↦
          let u =
            subst (IsWithout object w.address) (sym starts_from)
              (stops_at object w begun ne' d refl refl e h) in
          (
            refl,
            inr (
              some_ne_none (opened F w).error e h,
              record { objects = u.objects; plug_in = u.plug_in; device_ids = u.device_ids },
            ),
          )
    ]
