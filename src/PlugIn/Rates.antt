-- ===== src/PlugIn/Rates.antt =====
-- A change of the sample rate, from the host's SetPropertyData to its PerformDeviceConfigurationChange.
use jack_router.Common.{
  ℕ, ◌≡◌, ◌⊎◌, refl, sym, ap, ◌∙◌, arith, Bool, true, false, ◌==◌, Option, some, ==_refl,
}
use jack_router.Common.Float.{Float64}
use jack_router.Properties.{Address, Result, ok, throws, faults}
use jack_router.Properties.Base.{Identity}
use jack_router.Properties.OfStream.{Input, Changed}
use jack_router.Properties.Dispatch.{set_property_data}
use jack_router.Properties.Changes.{Exact, supported, performed}
use jack_router.PlugIn.{Reply, success, fails, Contents, Driver}
use jack_router.PlugIn.Methods.{
  reply, changed, object_set_data, device_perform, object_has, object_is_settable,
}
use jack_router.PlugIn.Calls.{invoke, if_has, if_settable}
use jack_router.PlugIn.Entry.{
  set_method, sa_set_property_data, sa_perform_device_configuration_change,
}
use jack_router.PlugIn.Balance.{on_found, with_object-call_by_id}
use jack_router.PlugIn.Service.Uses.{LeadsTo, with_device-LeadsTo}

module _ (F : Float64) (plug_in_identity device_identity : Identity) where
  open F use {Value}

  granted :
      {A : Type 0} (r : Reply Bool) (f : Contents Value → Reply A × Contents Value)
      (c : Contents Value) (x : A)
      → (if_has r f c).0 ≡ success x
      → (f c).0 ≡ success x
  granted (success true) f c x h = h
  granted (success false) f c x h = cc
  granted (fails e) f c x h = cc
  granted Reply.faults f c x h = cc

  settable :
      {A : Type 0} (r : Reply Bool) (f : Contents Value → Reply A × Contents Value)
      (c : Contents Value) (x : A)
      → (if_settable r f c).0 ≡ success x
      → (f c).0 ≡ success x
  settable (success true) f c x h = h
  settable (success false) f c x h = cc
  settable (fails e) f c x h = cc
  settable Reply.faults f c x h = cc

  change_requested :
      (o : ℕ) (x : Result (Changed Value)) (c : Contents Value) (r : ℕ)
      → (changed o x c).0 ≡ success (some r)
      → (y : Changed Value) × (x ≡ ok y) × (y.request ≡ some r)
  change_requested o (ok y) c r h = (y, refl, ground arith)
  change_requested o (throws e) c r h = cc
  change_requested o faults c r h = cc

  set_changes :
      (id o : ℕ) (a : Address) (i : Input Value) (c : Contents Value)
      → o == c.plug_in ≡ false
      → object_set_data F plug_in_identity device_identity id a.selector i o c
        ≡ changed o (set_property_data F device_identity (c.device o) id a.selector i) c
  unfolding object_set_data
  set_changes id o a i c d = rw d refl

  method_rate :
      (in_driver id o : ℕ) (a : Address) (i : Input Value) (c : Contents Value) (r : ℕ)
      → Exact F
      → o == c.plug_in ≡ false
      → (set_method F plug_in_identity device_identity in_driver id a i o c).0 ≡ success (some r)
      → (r ≡ 44100) ⊎ (r ≡ 48000)
  unfolding set_method
  method_rate in_driver id o a i c r x d h =
      let set = object_set_data F plug_in_identity device_identity id a.selector i o in
      let asked : Contents Value → Reply (Option ℕ) × Contents Value =
        λ c'. if_settable (reply (object_is_settable id a.selector o c')) set c' in
      let asks = granted (reply (object_has id a o c)) asked c (some r) h in
      let sets = settable (reply (object_is_settable id a.selector o c)) set c (some r) asks in
      let (y, done, request) =
        change_requested o (set_property_data F device_identity (c.device o) id a.selector i) c r
          (sym (ap (λ q. q.0) (set_changes id o a i c d)) ∙ sets) in
      supported F device_identity (c.device o) id a.selector i y r x done request

  set_called :
      (id o : ℕ) (a : Address) (i : Input Value) (s : Driver Value)
      → LeadsTo id o s
      → sa_set_property_data F plug_in_identity device_identity s.contents.reference id (some a) i s
        ≡ invoke (set_method F plug_in_identity device_identity s.contents.reference id a i o) s
  unfolding sa_set_property_data
  set_called id o a i s l =
      let f = set_method F plug_in_identity device_identity s.contents.reference id a i in
      rw (==_refl s.contents.reference) (
        with_object-call_by_id id f s l.valid l.can_refer
        ∙ ap (λ found. on_found found f s) l.leads)

  perform_called :
      (id o numer denom r : ℕ) (t : Driver Value)
      → LeadsTo id o t
      → sa_perform_device_configuration_change F plug_in_identity device_identity
          t.contents.reference id numer denom r t
        ≡ invoke (device_perform F plug_in_identity device_identity numer denom r o) t
  unfolding sa_perform_device_configuration_change
  perform_called id o numer denom r t l = rw (==_refl t.contents.reference) (
      with_device-LeadsTo id o (device_perform F plug_in_identity device_identity numer denom r) t
        l)

  performs :
      (o numer denom r : ℕ) (t : Driver Value)
      → (r ≡ 44100) ⊎ (r ≡ 48000)
      → let (answer, t') =
          invoke (device_perform F plug_in_identity device_identity numer denom r o) t in
        (answer ≡ success tt) × ((t'.contents.device o).sample_rate_shadow ≡ r)
  unfolding device_perform
  performs o numer denom r t rate =
      (refl, rw (==_refl o) (performed F device_identity (t.contents.device o) numer denom r rate))

  -- A rate that the host is asked for by SetPropertyData on a device or on one of its streams is
  -- 44100 or 48000, and whenever the host performs the change on the same device, later and in
  -- whatever state, the call succeeds and the rate is the device's.
  pub requested_rate_performed :
      (id id' o numer denom r : ℕ) (a : Address) (i : Input Value) (s t : Driver Value)
      → Exact F
      → LeadsTo id o s
      → LeadsTo id' o t
      → (sa_set_property_data F plug_in_identity device_identity s.contents.reference id
          (some a)
          i
          s).0
        ≡ success (some r)
      → let (answer, t') =
          sa_perform_device_configuration_change F plug_in_identity device_identity
            t.contents.reference id' numer denom r t in
        ((r ≡ 44100) ⊎ (r ≡ 48000))
        × (answer ≡ success tt)
        × ((t'.contents.device o).sample_rate_shadow ≡ r)
  requested_rate_performed id id' o numer denom r a i s t x l l' h =
      let asked = sym (ap (λ q. q.0) (set_called id o a i s l)) ∙ h in
      let rate = method_rate s.contents.reference id o a i s.contents r x l.is_device asked in
      let (answer, shadow) = performs o numer denom r t rate in
      let called = perform_called id' o numer denom r t l' in
      (
        rate,
        ap (λ q. q.0) called ∙ answer,
        ap (λ q. (q.1.contents.device o).sample_rate_shadow) called ∙ shadow,
      )
