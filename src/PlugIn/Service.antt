-- ===== src/PlugIn/Service.antt =====
-- Every request that the host makes of an object or of a device, through its entry point.
pub mod Keeping
pub mod Guards
pub mod Refusals
pub mod Uses
pub mod Io
use jack_router.Common.{ℕ, Option, List, [], ◌∷◌}
use jack_router.Common.Array.{Array}
use jack_router.Common.Float.{Float64}
use jack_router.Device.Cycle.{CycleInfo}
use jack_router.Device.Transfer.{Operation}
use jack_router.Properties.{Address}
use jack_router.Properties.Base.{Identity}
use jack_router.Properties.OfStream.{Input}
use jack_router.PlugIn.{Reply, success, fails, faults, Driver}
use jack_router.PlugIn.Calls.{Call}
use jack_router.PlugIn.Entry.{
  sa_create_device, sa_destroy_device, sa_add_device_client, sa_remove_device_client,
  sa_has_property, sa_is_property_settable, sa_get_property_data_size, sa_get_property_data,
  sa_set_property_data, sa_perform_device_configuration_change,
  sa_abort_device_configuration_change, sa_start_io, sa_stop_io, sa_get_zero_time_stamp,
  sa_will_do_io_operation, sa_begin_io_operation, sa_do_io_operation, sa_end_io_operation,
}

-- A request with the arguments of its entry point: an address or a cycle info may be missing, an
-- output pointer may be 0, and the readings of the clocks are among them.
pub data Request (Value : Type 0) : Type 0 where
  has_property : Option Address → Request Value
  is_property_settable : Option Address → ℕ → Request Value
  get_property_data_size : Option Address → ℕ → Request Value
  get_property_data : Option Address → ℕ → ℕ → ℕ → ℕ → Request Value
  set_property_data : Option Address → Input Value → Request Value
  create_endpoint_device : Request Value
  destroy_endpoint_device : Request Value
  add_device_client : Request Value
  remove_device_client : Request Value
  perform_device_configuration_change : ℕ → ℕ → ℕ → Request Value
  abort_device_configuration_change : Request Value
  start_io : ℕ → Request Value
  stop_io : Request Value
  get_zero_time_stamp : ℕ → ℕ → ℕ → ℕ → ℕ → Request Value
  will_do_io_operation : Operation → ℕ → ℕ → Request Value
  begin_io_operation : Operation → ℕ → Option (CycleInfo Value) → Request Value
  do_io_operation : ℕ → Operation → ℕ → Option (CycleInfo Value) → Array → Request Value
  end_io_operation : Option (CycleInfo Value) → Request Value

-- The error of a reply, without the answer.
abbrev pub outcome : {A : Type 0} → Reply A → Reply (Unit {0})
outcome (success a) = success tt
outcome (fails e) = fails e
outcome faults = faults

abbrev pub forget : {Value A : Type 0} → Call Value A → Call Value (Unit {0})
forget m s = (outcome (m s).0, (m s).1)

module _ (F : Float64) (zero_value : F.Value) (plug_in_identity device_identity : Identity)
    (in_driver : ℕ) where
  open F use {Value}

  -- The entry points of the driver's interface, from SA_CreateDevice on.
  unfoldable pub serve : ℕ → Request Value → Call Value (Unit {0})
  unfolding sa_create_device sa_destroy_device sa_add_device_client sa_remove_device_client
      sa_has_property sa_is_property_settable sa_get_property_data_size sa_get_property_data
      sa_set_property_data sa_perform_device_configuration_change
      sa_abort_device_configuration_change sa_start_io sa_stop_io sa_get_zero_time_stamp
      sa_will_do_io_operation sa_begin_io_operation sa_do_io_operation sa_end_io_operation
  serve id create_endpoint_device = sa_create_device
  serve id destroy_endpoint_device = sa_destroy_device
  serve id add_device_client = sa_add_device_client
  serve id remove_device_client = sa_remove_device_client
  serve id (has_property a) = forget (sa_has_property in_driver id a)
  serve id (is_property_settable a out) = forget (sa_is_property_settable in_driver id a out)
  serve id (get_property_data_size a out) = forget (sa_get_property_data_size in_driver id a out)
  serve id (get_property_data a qualifier_size in_size out_size out) = forget (
      sa_get_property_data F plug_in_identity device_identity in_driver id a qualifier_size in_size
        out_size out)
  serve id (set_property_data a i) =
      forget (sa_set_property_data F plug_in_identity device_identity in_driver id a i)
  serve id (perform_device_configuration_change numer denom action) =
      sa_perform_device_configuration_change F plug_in_identity device_identity in_driver id numer
        denom action
  serve id abort_device_configuration_change = sa_abort_device_configuration_change F in_driver id
  serve id (start_io now) = sa_start_io F in_driver id zero_value now
  serve id stop_io = sa_stop_io F in_driver id
  serve id (get_zero_time_stamp now later out_sample_time out_host_time out_seed) =
      forget
        (sa_get_zero_time_stamp F in_driver id now later out_sample_time out_host_time out_seed)
  serve id (will_do_io_operation operation out_will_do out_in_place) =
      forget (sa_will_do_io_operation F in_driver id operation out_will_do out_in_place)
  serve id (begin_io_operation operation n info) =
      forget (sa_begin_io_operation F in_driver id operation n info)
  serve id (do_io_operation stream_id operation n info buffer) =
      forget (sa_do_io_operation F in_driver id stream_id operation n info buffer)
  serve id (end_io_operation info) = sa_end_io_operation F in_driver id info

  -- The driver after a sequence of requests, each with the ID that it is about.
  unfoldable pub serve_all : List (ℕ × Request Value) → Driver Value → Driver Value
  unfolding serve
  serve_all [] s = s
  serve_all ((id, r) ∷ rs) s = serve_all rs (serve id r s).1
