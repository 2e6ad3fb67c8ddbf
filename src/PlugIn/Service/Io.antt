-- ===== src/PlugIn/Service/Io.antt =====
-- The requests about a device, from the host to the device: the entry points do to the device that the
-- ID leads to what its own operations do, and nothing to any other.
use jack_router.Common.{
  ℕ, ◌≡◌, Bool, true, false, ◌==◌, ◌||◌, if◌then◌else◌, Option, none, some, List, [], ◌∷◌, map,
  ==_refl,
}
use mathlib.Core.Path.{subst}
use jack_router.Common.Array.{Array}
use jack_router.Common.Float.{Float64}
use jack_router.Shm.{Shm}
use jack_router.Device
use jack_router.Device.{Device}
use jack_router.Device.Clock
use jack_router.Device.Cycle
use jack_router.Device.Transfer
use jack_router.Properties.Base.{Identity}
use jack_router.Properties.Dispatch.{perform_config_change}
use jack_router.PlugIn.{Contents, Driver}
use jack_router.PlugIn.Methods
use jack_router.PlugIn.Methods.{
  Method, put, device_perform, device_start, device_stop, device_zero_time_stamp, device_will_do,
  device_begin, device_do,
}
use jack_router.PlugIn.Calls.{with_device}
use jack_router.PlugIn.Entry.{
  nothing_done, sa_perform_device_configuration_change, sa_abort_device_configuration_change,
  sa_start_io, sa_stop_io, sa_get_zero_time_stamp, sa_will_do_io_operation, sa_begin_io_operation,
  sa_do_io_operation, sa_end_io_operation,
}
use jack_router.PlugIn.Service.{
  Request, perform_device_configuration_change, abort_device_configuration_change, start_io,
  stop_io, get_zero_time_stamp, will_do_io_operation, begin_io_operation, do_io_operation,
  end_io_operation, serve, serve_all,
}
use jack_router.PlugIn.Service.Uses.{
  LeadsTo, Touches, Uses, put-Touches, nothing-Touches, nothing-Uses, Uses-LeadsTo, Uses-seen,
  Uses-trans, with_device-Uses, guard_2-Uses, guard_3-Uses,
}

-- A test holds of every member.
abbrev pub All : {A : Type 0} → (A → Type 0) → List A → Type 0
All P [] = Unit
All P (x ∷ xs) = P x × All P xs

-- The entry points from SA_PerformDeviceConfigurationChange on.
abbrev pub is_of_device : {Value : Type 0} → Request Value → Bool
is_of_device (perform_device_configuration_change numer denom action) = true
is_of_device abort_device_configuration_change = true
is_of_device (start_io now) = true
is_of_device stop_io = true
is_of_device (get_zero_time_stamp now later out_sample_time out_host_time out_seed) = true
is_of_device (will_do_io_operation operation out_will_do out_in_place) = true
is_of_device (begin_io_operation operation n info) = true
is_of_device (do_io_operation stream_id operation n info buffer) = true
is_of_device (end_io_operation info) = true
is_of_device r = false

abbrev pub region_after :
    {Value : Type 0} → Device Value × Shm → Option (Array × Shm) → Device Value × Shm
region_after st none = st
region_after st (some (buffer, m)) = (st.0, m)

module _ (F : Float64) (zero_value : F.Value) (plug_in_identity device_identity : Identity) where
  open F use {Value}

  -- What the device's own operation does to the device and its region.
  abbrev pub on_device : Request Value → Device Value × Shm → Device Value × Shm
  on_device (perform_device_configuration_change numer denom action) (d, m) =
      (perform_config_change F device_identity d numer denom action, m)
  on_device (start_io now) (d, m) = let (e, d', m') = Device.start_io zero_value now d m in (d', m')
  on_device stop_io (d, m) = Device.stop_io d m
  on_device (get_zero_time_stamp now later out_sample_time out_host_time out_seed) (d, m) =
      if out_sample_time == 0 || out_host_time == 0 || out_seed == 0
      then (d, m)
      else (let (stamp, d', m', notices) = Clock.get_zero_time_stamp F now later d m in (d', m'))
  on_device (begin_io_operation operation n (some i)) (d, m) =
      let (d', m', line) = Cycle.begin_io_operation F operation n i d m in (d', m')
  on_device (do_io_operation stream_id operation n (some i) buffer) (d, m) =
      region_after (d, m)
        (Transfer.do_io_operation F stream_id operation n i.input_sample_time i.output_sample_time
          buffer d m)
  on_device r (d, m) = (d, m)

  do-Touches :
      (stream_id : ℕ) (operation : Transfer.Operation) (n : ℕ) (i : Cycle.CycleInfo Value)
      (buffer : Array) (o : ℕ) (c : Contents Value)
      → Touches o
          (on_device (do_io_operation stream_id operation n (some i) buffer) (c.device o, c.shm o))
          c
          (device_do F stream_id operation n i buffer o c).1
  unfolding device_do
  do-Touches stream_id operation n i buffer o c = go (
      Transfer.do_io_operation F stream_id operation n i.input_sample_time i.output_sample_time
        buffer (c.device o) (c.shm o))
    where
      go :
          (r : Option (Array × Shm))
          → Touches o (region_after (c.device o, c.shm o) r) c (Methods.transferred F o r c).1
      go none = nothing-Touches o c
      go (some (b, m)) = put-Touches o (c.device o) m c

  serve-Uses :
      (id o : ℕ) (r : Request Value) (s : Driver Value)
      → is_of_device r ≡ true
      → LeadsTo id o s
      → Uses o
          (on_device r (s.contents.device o, s.contents.shm o))
          s
          (serve F zero_value plug_in_identity device_identity s.contents.reference id r s).1
  unfolding serve sa_perform_device_configuration_change sa_abort_device_configuration_change
      sa_start_io sa_stop_io sa_get_zero_time_stamp sa_will_do_io_operation sa_begin_io_operation
      sa_do_io_operation sa_end_io_operation device_perform device_start device_stop
      device_zero_time_stamp device_will_do device_begin
  serve-Uses id o (perform_device_configuration_change numer denom action) s h l =
      with_device-Uses id o (device_perform F plug_in_identity device_identity numer denom action) s
        _ l (put-Touches o _ _ s.contents)
  serve-Uses id o abort_device_configuration_change s h l =
      with_device-Uses id o nothing_done s _ l (nothing-Touches o s.contents)
  serve-Uses id o (start_io now) s h l =
      with_device-Uses id o (device_start F zero_value now) s _ l (put-Touches o _ _ s.contents)
  serve-Uses id o stop_io s h l =
      with_device-Uses id o (device_stop F) s _ l (put-Touches o _ _ s.contents)
  serve-Uses id o (get_zero_time_stamp now later out_sample_time out_host_time out_seed) s h l =
      guard_3-Uses (with_device id (device_zero_time_stamp F now later)) o s _
        (with_device-Uses id o (device_zero_time_stamp F now later) s _ l
          (put-Touches o _ _ s.contents))
        out_sample_time out_host_time out_seed
  serve-Uses id o (will_do_io_operation operation out_will_do out_in_place) s h l =
      guard_2-Uses (with_device id (device_will_do F operation)) o s out_will_do out_in_place
        (with_device-Uses id o (device_will_do F operation) s _ l (nothing-Touches o s.contents))
  serve-Uses id o (begin_io_operation operation n none) s h l =
      rw (==_refl s.contents.reference) (nothing-Uses o s)
  serve-Uses id o (begin_io_operation operation n (some i)) s h l =
      with_device-Uses id o (device_begin F operation n i) s _ l (put-Touches o _ _ s.contents)
  serve-Uses id o (do_io_operation stream_id operation n none buffer) s h l =
      rw (==_refl s.contents.reference) (nothing-Uses o s)
  serve-Uses id o (do_io_operation stream_id operation n (some i) buffer) s h l =
      with_device-Uses id o (device_do F stream_id operation n i buffer) s _ l
        (do-Touches stream_id operation n i buffer o s.contents)
  serve-Uses id o (end_io_operation none) s h l =
      rw (==_refl s.contents.reference) (nothing-Uses o s)
  serve-Uses id o (end_io_operation (some i)) s h l =
      with_device-Uses id o nothing_done s _ l (nothing-Touches o s.contents)
  serve-Uses id o r s h l = cc

  -- One operation after another.
  abbrev pub on_device_all : List (Request Value) → Device Value × Shm → Device Value × Shm
  on_device_all [] st = st
  on_device_all (r ∷ rs) st = on_device_all rs (on_device r st)

  -- Whatever the host asks of a device's ID, in whatever order, from a configuration change on: the
  -- device and its region are as the device's own operations leave them, no other device and no other
  -- region has changed, and the object map has not either.
  pub serve_all-on_device :
      (id o : ℕ) (rs : List (Request Value)) (s : Driver Value)
      → All (λ r. is_of_device r ≡ true) rs
      → LeadsTo id o s
      → Uses o (on_device_all rs (s.contents.device o, s.contents.shm o)) s (
          serve_all F zero_value plug_in_identity device_identity s.contents.reference
            (map (λ r. (id, r)) rs)
            s)
  unfolding serve_all
  serve_all-on_device id o [] s ofs l = nothing-Uses o s
  serve_all-on_device id o (r ∷ rs) s (h, ofs) l =
      let u = serve-Uses id o r s h l in
      let s' =
        (serve F zero_value plug_in_identity device_identity s.contents.reference id r s).1 in
      let s'' =
        serve_all F zero_value plug_in_identity device_identity s.contents.reference
          (map (λ r'. (id, r')) rs) s' in
      Uses-trans u (
        subst (λ st. Uses o (on_device_all rs st) s' s'') (Uses-seen u)
          (subst
            (λ ref. Uses o (on_device_all rs (s'.contents.device o, s'.contents.shm o)) s' (
              serve_all F zero_value plug_in_identity device_identity ref (map (λ r'. (id, r')) rs)
                s'))
            u.contents.same_reference (serve_all-on_device id o rs s' ofs (Uses-LeadsTo u l))))
