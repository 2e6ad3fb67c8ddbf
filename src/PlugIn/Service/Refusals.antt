-- ===== src/PlugIn/Service/Refusals.antt =====
-- What a request that cannot be served gives.
use jack_router.Common.{refl, ◌&&◌, ℕ, ◌≡◌, ap, Bool, true, false, not, ◌==◌, none, some, arith}
use jack_router.Common.Float.{Float64}
use jack_router.Device.{Error}
use jack_router.Properties.Base.{Identity}
use jack_router.PlugIn.{Driver, Reply, success, hardware, unsupported_operation, fails}
use jack_router.PlugIn.Methods.{
  device_perform, device_start, device_stop, device_zero_time_stamp, device_will_do, device_begin,
  device_do,
}
use jack_router.PlugIn.Calls.{caught, with_object, with_device}
use jack_router.PlugIn.Entry.{
  sa_create_device, sa_destroy_device, sa_add_device_client, sa_remove_device_client,
  sa_has_property, sa_is_property_settable, sa_get_property_data_size, sa_get_property_data,
  sa_set_property_data, sa_perform_device_configuration_change,
  sa_abort_device_configuration_change, sa_start_io, sa_stop_io, sa_get_zero_time_stamp,
  sa_will_do_io_operation, sa_begin_io_operation, sa_do_io_operation, sa_end_io_operation,
  has_method, settable_method, size_method, data_method, set_method, nothing_done,
}
use jack_router.PlugIn.Service.{
  outcome, Request, create_endpoint_device, destroy_endpoint_device, add_device_client,
  remove_device_client, has_property, is_property_settable, get_property_data_size,
  get_property_data, set_property_data, perform_device_configuration_change,
  abort_device_configuration_change, start_io, stop_io, get_zero_time_stamp, will_do_io_operation,
  begin_io_operation, do_io_operation, end_io_operation, serve,
}
use jack_router.PlugIn.Service.Guards.{
  is_given, is_found, reason, refused-with_object, refused-with_device, refused-guard,
  refused-guard_1, refused-guard_2, refused-guard_3,
}

abbrev pub is_complete : {Value : Type 0} → Request Value → Bool
is_complete (has_property a) = is_given a
is_complete (is_property_settable none out) = false
is_complete (is_property_settable (some a) out) = not (out == 0)
is_complete (get_property_data_size none out) = false
is_complete (get_property_data_size (some a) out) = not (out == 0)
is_complete (get_property_data none qualifier_size in_size out_size out) = false
is_complete (get_property_data (some a) qualifier_size in_size out_size out) =
    not (out_size == 0) && not (out == 0)
is_complete (set_property_data a i) = is_given a
is_complete (get_zero_time_stamp now later out_sample_time out_host_time out_seed) =
    not (out_sample_time == 0) && not (out_host_time == 0) && not (out_seed == 0)
is_complete (will_do_io_operation operation out_will_do out_in_place) =
    not (out_will_do == 0) && not (out_in_place == 0)
is_complete (begin_io_operation operation n info) = is_given info
is_complete (do_io_operation stream_id operation n info buffer) = is_given info
is_complete (end_io_operation info) = is_given info
is_complete r = true

-- HasProperty answers false where the other requests fail, and four of them answer a constant.
abbrev pub refusal : {Value : Type 0} → Request Value → Error → Reply (Unit {0})
refusal (has_property a) e = success tt
refusal create_endpoint_device e = fails unsupported_operation
refusal destroy_endpoint_device e = fails unsupported_operation
refusal add_device_client e = success tt
refusal remove_device_client e = success tt
refusal r e = fails (hardware e)

module _ (F : Float64) (zero_value : F.Value) (plug_in_identity device_identity : Identity)
    (in_driver : ℕ) where
  open F use {Value}

  refused_outcome :
      (id : ℕ) (r : Request Value) (s : Driver Value)
      → ((in_driver == s.contents.reference) && is_complete r && is_found id s) ≡ false
      → serve F zero_value plug_in_identity device_identity in_driver id r s
        ≡ (refusal r (reason (in_driver == s.contents.reference) (is_complete r)), s)
  unfolding serve sa_create_device sa_destroy_device sa_add_device_client sa_remove_device_client
      sa_has_property sa_is_property_settable sa_get_property_data_size sa_get_property_data
      sa_set_property_data sa_perform_device_configuration_change
      sa_abort_device_configuration_change sa_start_io sa_stop_io sa_get_zero_time_stamp
      sa_will_do_io_operation sa_begin_io_operation sa_do_io_operation sa_end_io_operation
  refused_outcome id create_endpoint_device s h = refl
  refused_outcome id destroy_endpoint_device s h = refl
  refused_outcome id add_device_client s h = refl
  refused_outcome id remove_device_client s h = refl
  refused_outcome id (has_property none) s h = ground arith
  refused_outcome id (has_property (some a)) s h =
      ap (λ r. (outcome (caught (λ _. r) s).0, r.1))
        (refused-guard (with_object id (has_method in_driver id a)) in_driver (is_found id s) s
          (refused-with_object id (has_method in_driver id a) s) h)
  refused_outcome id (is_property_settable none out) s h = ground arith
  refused_outcome id (is_property_settable (some a) out) s h =
      ap (λ r. (outcome r.0, r.1))
        (refused-guard_1 (with_object id (settable_method in_driver id a)) in_driver (is_found id s)
          s (refused-with_object id (settable_method in_driver id a) s) out h)
  refused_outcome id (get_property_data_size none out) s h = ground arith
  refused_outcome id (get_property_data_size (some a) out) s h =
      ap (λ r. (outcome r.0, r.1))
        (refused-guard_1 (with_object id (size_method in_driver id a)) in_driver (is_found id s) s
          (refused-with_object id (size_method in_driver id a) s) out h)
  refused_outcome id (get_property_data none qualifier_size in_size out_size out) s h = ground arith
  refused_outcome id (get_property_data (some a) qualifier_size in_size out_size out) s h =
      ap (λ r. (outcome r.0, r.1))
        (refused-guard_2
          (with_object id
            (data_method F plug_in_identity device_identity in_driver id a qualifier_size in_size))
          in_driver (is_found id s) s
          (refused-with_object id
            (data_method F plug_in_identity device_identity in_driver id a qualifier_size in_size)
            s)
          out_size out h)
  refused_outcome id (set_property_data none i) s h = ground arith
  refused_outcome id (set_property_data (some a) i) s h =
      ap (λ r. (outcome r.0, r.1))
        (refused-guard
          (with_object id (set_method F plug_in_identity device_identity in_driver id a i))
          in_driver (is_found id s) s
          (refused-with_object id (set_method F plug_in_identity device_identity in_driver id a i)
            s)
          h)
  refused_outcome id (perform_device_configuration_change numer denom action) s h =
      refused-guard
        (with_device id (device_perform F plug_in_identity device_identity numer denom action))
        in_driver (is_found id s) s
        (refused-with_device id
          (device_perform F plug_in_identity device_identity numer denom action) s)
        h
  refused_outcome id abort_device_configuration_change s h =
      refused-guard (with_device id nothing_done) in_driver (is_found id s) s
        (refused-with_device id nothing_done s) h
  refused_outcome id (start_io now) s h =
      refused-guard (with_device id (device_start F zero_value now)) in_driver (is_found id s) s
        (refused-with_device id (device_start F zero_value now) s) h
  refused_outcome id stop_io s h =
      refused-guard (with_device id (device_stop F)) in_driver (is_found id s) s
        (refused-with_device id (device_stop F) s) h
  refused_outcome id (get_zero_time_stamp now later out_sample_time out_host_time out_seed) s h =
      ap (λ r. (outcome r.0, r.1))
        (refused-guard_3 (with_device id (device_zero_time_stamp F now later)) in_driver
          (is_found id s) s (refused-with_device id (device_zero_time_stamp F now later) s)
          out_sample_time out_host_time out_seed h)
  refused_outcome id (will_do_io_operation operation out_will_do out_in_place) s h =
      ap (λ r. (outcome r.0, r.1))
        (refused-guard_2 (with_device id (device_will_do F operation)) in_driver (is_found id s) s
          (refused-with_device id (device_will_do F operation) s) out_will_do out_in_place h)
  refused_outcome id (begin_io_operation operation n none) s h = ground arith
  refused_outcome id (begin_io_operation operation n (some i)) s h =
      ap (λ r. (outcome r.0, r.1))
        (refused-guard (with_device id (device_begin F operation n i)) in_driver (is_found id s) s
          (refused-with_device id (device_begin F operation n i) s) h)
  refused_outcome id (do_io_operation stream_id operation n none buffer) s h = ground arith
  refused_outcome id (do_io_operation stream_id operation n (some i) buffer) s h =
      ap (λ r. (outcome r.0, r.1))
        (refused-guard (with_device id (device_do F stream_id operation n i buffer)) in_driver
          (is_found id s) s (refused-with_device id (device_do F stream_id operation n i buffer) s)
          h)
  refused_outcome id (end_io_operation none) s h = ground arith
  refused_outcome id (end_io_operation (some i)) s h =
      refused-guard (with_device id nothing_done) in_driver (is_found id s) s
        (refused-with_device id nothing_done s) h

  -- What HasProperty answers; other requests have nothing to say here.
  abbrev pub HasNone : ℕ → Request Value → Driver Value → Type 0
  HasNone id (has_property a) s = sa_has_property in_driver id a s ≡ (success false, s)
  HasNone id r s = Unit

  refused-HasNone :
      (id : ℕ) (r : Request Value) (s : Driver Value)
      → ((in_driver == s.contents.reference) && is_complete r && is_found id s) ≡ false
      → HasNone id r s
  unfolding sa_has_property
  refused-HasNone id (has_property none) s h = ground arith
  refused-HasNone id (has_property (some a)) s h =
      ap (λ r. caught (λ _. r) s)
        (refused-guard (with_object id (has_method in_driver id a)) in_driver (is_found id s) s
          (refused-with_object id (has_method in_driver id a) s) h)
  refused-HasNone id r s h = tt

  -- A request through another reference than the driver's, with an argument missing, or of an ID that
  -- leads to nothing changes nothing: it fails with IllegalOperation for the second where the
  -- reference is right, with BadObject otherwise; HasProperty answers false, and the four calls that
  -- look at no argument answer their constant.
  pub serve_refused :
      (id : ℕ) (r : Request Value) (s : Driver Value)
      → ((in_driver == s.contents.reference) && is_complete r && is_found id s) ≡ false
      → (serve F zero_value plug_in_identity device_identity in_driver id r s
          ≡ (refusal r (reason (in_driver == s.contents.reference) (is_complete r)), s))
        × HasNone id r s
  serve_refused id r s h = (refused_outcome id r s h, refused-HasNone id r s h)
