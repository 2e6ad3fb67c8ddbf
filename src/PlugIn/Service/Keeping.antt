-- ===== src/PlugIn/Service/Keeping.antt =====
-- No request changes the object map.
use jack_router.Common.{ℕ, ◌≡◌, refl, ap, ◌∙◌, sym, Option, none, some, List, [], ◌∷◌, arith}
use mathlib.Core.Path.{subst}
use jack_router.Common.Float.{Float64}
use jack_router.Device.{illegal_operation}
use jack_router.Objects.Invariant.{IsValid}
use jack_router.Properties.Base.{Identity}
use jack_router.PlugIn.{Driver, hardware, fails}
use jack_router.PlugIn.Methods.{
  Method, device_perform, device_start, device_stop, device_zero_time_stamp, device_will_do,
  device_begin, device_do,
}
use jack_router.PlugIn.Calls.{
  Call, ◌>>◌, throw_if_null, throw_if_other, with_object, with_device, as_device,
}
use jack_router.PlugIn.Entry.{
  sa_create_device, sa_destroy_device, sa_add_device_client, sa_remove_device_client,
  sa_has_property, sa_is_property_settable, sa_get_property_data_size, sa_get_property_data,
  sa_set_property_data, sa_perform_device_configuration_change,
  sa_abort_device_configuration_change, sa_start_io, sa_stop_io, sa_get_zero_time_stamp,
  sa_will_do_io_operation, sa_begin_io_operation, sa_do_io_operation, sa_end_io_operation,
  has_method, settable_method, size_method, data_method, set_method, nothing_done,
}
use jack_router.PlugIn.Balance.{CanRefer, on_found, lookup, with_object-call_by_id}
use jack_router.PlugIn.Service.{
  Request, create_endpoint_device, destroy_endpoint_device, add_device_client, remove_device_client,
  has_property, is_property_settable, get_property_data_size, get_property_data, set_property_data,
  perform_device_configuration_change, abort_device_configuration_change, start_io, stop_io,
  get_zero_time_stamp, will_do_io_operation, begin_io_operation, do_io_operation, end_io_operation,
  serve, serve_all,
}

objects-on_found :
    {Value A : Type 0} (o : Option ℕ) (f : ℕ → Method Value A) (s : Driver Value)
    → (on_found o f s).1.objects ≡ s.objects
objects-on_found none f s = refl
objects-on_found (some o) f s = refl

module _ {Value A : Type 0} (id : ℕ) (f : ℕ → Method Value A) (s : Driver Value)
    (v : IsValid s.objects) (spare : CanRefer id s.objects) where
  objects-with_object : (with_object id f s).1.objects ≡ s.objects
  objects-with_object =
      ap (λ r. r.1.objects) (with_object-call_by_id id f s v spare)
      ∙ objects-on_found (lookup id s.objects) f s

module _ {Value A : Type 0} (id : ℕ) (f : ℕ → Method Value A) (s : Driver Value)
    (v : IsValid s.objects) (spare : CanRefer id s.objects) where
  objects-with_device : (with_device id f s).1.objects ≡ s.objects
  unfolding with_device
  objects-with_device = objects-with_object id (as_device f) s v spare

-- The guards of a call, with no output pointer, with one, with two or with three.
module _ {Value A : Type 0} (m : Call Value A) (in_driver : ℕ) (s : Driver Value)
    (h : (m s).1.objects ≡ s.objects) where
  objects-guard : ((do throw_if_other in_driver; m) s).1.objects ≡ s.objects
  objects-guard = ground arith

  objects-guard_1 :
      (p : ℕ) → ((do throw_if_other in_driver; throw_if_null p; m) s).1.objects ≡ s.objects
  objects-guard_1 p = ground arith

  objects-guard_2 :
      (p q : ℕ)
      → ((do throw_if_other in_driver; throw_if_null p; throw_if_null q; m) s).1.objects ≡ s.objects
  objects-guard_2 p q = ground arith

  objects-guard_3 :
      (p q r : ℕ)
      → ((do throw_if_other in_driver; throw_if_null p; throw_if_null q; throw_if_null r; m)
          s).1.objects
        ≡ s.objects
  objects-guard_3 p q r = ground arith

abbrev null_refused : {Value A : Type 0} → Call Value A
null_refused s = (fails (hardware illegal_operation), s)

module _ (F : Float64) (zero_value : F.Value) (plug_in_identity device_identity : Identity)
    (in_driver : ℕ) where
  open F use {Value}

  objects-serve :
      (id : ℕ) (r : Request Value) (s : Driver Value)
      → IsValid s.objects
      → CanRefer id s.objects
      → (serve F zero_value plug_in_identity device_identity in_driver id r s).1.objects ≡ s.objects
  unfolding serve sa_create_device sa_destroy_device sa_add_device_client sa_remove_device_client
      sa_has_property sa_is_property_settable sa_get_property_data_size sa_get_property_data
      sa_set_property_data sa_perform_device_configuration_change
      sa_abort_device_configuration_change sa_start_io sa_stop_io sa_get_zero_time_stamp
      sa_will_do_io_operation sa_begin_io_operation sa_do_io_operation sa_end_io_operation
  objects-serve id create_endpoint_device s v spare = refl
  objects-serve id destroy_endpoint_device s v spare = refl
  objects-serve id add_device_client s v spare = refl
  objects-serve id remove_device_client s v spare = refl
  objects-serve id (has_property none) s v spare = objects-guard null_refused in_driver s refl
  objects-serve id (has_property (some a)) s v spare =
      objects-guard (with_object id (has_method in_driver id a)) in_driver s
        (objects-with_object id (has_method in_driver id a) s v spare)
  objects-serve id (is_property_settable none out) s v spare =
      objects-guard null_refused in_driver s refl
  objects-serve id (is_property_settable (some a) out) s v spare =
      objects-guard_1 (with_object id (settable_method in_driver id a)) in_driver s
        (objects-with_object id (settable_method in_driver id a) s v spare) out
  objects-serve id (get_property_data_size none out) s v spare =
      objects-guard null_refused in_driver s refl
  objects-serve id (get_property_data_size (some a) out) s v spare =
      objects-guard_1 (with_object id (size_method in_driver id a)) in_driver s
        (objects-with_object id (size_method in_driver id a) s v spare) out
  objects-serve id (get_property_data none qualifier_size in_size out_size out) s v spare =
      objects-guard null_refused in_driver s refl
  objects-serve id (get_property_data (some a) qualifier_size in_size out_size out) s v spare =
      objects-guard_2
        (with_object id
          (data_method F plug_in_identity device_identity in_driver id a qualifier_size in_size))
        in_driver s
        (objects-with_object id
          (data_method F plug_in_identity device_identity in_driver id a qualifier_size in_size) s v
          spare)
        out_size out
  objects-serve id (set_property_data none i) s v spare =
      objects-guard null_refused in_driver s refl
  objects-serve id (set_property_data (some a) i) s v spare =
      objects-guard
        (with_object id (set_method F plug_in_identity device_identity in_driver id a i)) in_driver
        s
        (objects-with_object id (set_method F plug_in_identity device_identity in_driver id a i) s v
          spare)
  objects-serve id (perform_device_configuration_change numer denom action) s v spare =
      objects-guard
        (with_device id (device_perform F plug_in_identity device_identity numer denom action))
        in_driver s
        (objects-with_device id
          (device_perform F plug_in_identity device_identity numer denom action) s v spare)
  objects-serve id abort_device_configuration_change s v spare =
      objects-guard (with_device id nothing_done) in_driver s
        (objects-with_device id nothing_done s v spare)
  objects-serve id (start_io now) s v spare =
      objects-guard (with_device id (device_start F zero_value now)) in_driver s
        (objects-with_device id (device_start F zero_value now) s v spare)
  objects-serve id stop_io s v spare =
      objects-guard (with_device id (device_stop F)) in_driver s
        (objects-with_device id (device_stop F) s v spare)
  objects-serve id (get_zero_time_stamp now later out_sample_time out_host_time out_seed) s v
        spare =
      objects-guard_3 (with_device id (device_zero_time_stamp F now later)) in_driver s
        (objects-with_device id (device_zero_time_stamp F now later) s v spare) out_sample_time
        out_host_time out_seed
  objects-serve id (will_do_io_operation operation out_will_do out_in_place) s v spare =
      objects-guard_2 (with_device id (device_will_do F operation)) in_driver s
        (objects-with_device id (device_will_do F operation) s v spare) out_will_do out_in_place
  objects-serve id (begin_io_operation operation n none) s v spare =
      objects-guard null_refused in_driver s refl
  objects-serve id (begin_io_operation operation n (some i)) s v spare =
      objects-guard (with_device id (device_begin F operation n i)) in_driver s
        (objects-with_device id (device_begin F operation n i) s v spare)
  objects-serve id (do_io_operation stream_id operation n none buffer) s v spare =
      objects-guard null_refused in_driver s refl
  objects-serve id (do_io_operation stream_id operation n (some i) buffer) s v spare =
      objects-guard (with_device id (device_do F stream_id operation n i buffer)) in_driver s
        (objects-with_device id (device_do F stream_id operation n i buffer) s v spare)
  objects-serve id (end_io_operation none) s v spare = objects-guard null_refused in_driver s refl
  objects-serve id (end_io_operation (some i)) s v spare =
      objects-guard (with_device id nothing_done) in_driver s
        (objects-with_device id nothing_done s v spare)

  -- However many requests the host makes, of whatever IDs, the object map is as it was: no request
  -- leaves a reference behind, gives one back too many, or changes which object an ID leads to.
  pub serve_all-objects :
      (rs : List (ℕ × Request Value)) (s : Driver Value)
      → IsValid s.objects
      → ((id : ℕ) → CanRefer id s.objects)
      → (serve_all F zero_value plug_in_identity device_identity in_driver rs s).objects ≡ s.objects
  unfolding serve_all
  serve_all-objects [] s v spare = refl
  serve_all-objects ((id, r) ∷ rs) s v spare =
      let s' = (serve F zero_value plug_in_identity device_identity in_driver id r s).1 in
      let same = objects-serve id r s v (spare id) in
      serve_all-objects rs s' (subst IsValid (sym same) v)
        (subst (λ m. (id' : ℕ) → CanRefer id' m) (sym same) spare)
      ∙ same
