-- ===== src/PlugIn/Entry.antt =====
-- The entry points SA_CreateDevice to SA_EndIOOperation, each as its arguments' checks and a method.
use jack_router.Common.{ℕ, Bool, Option, List}
use jack_router.Common.Array.{Array}
use jack_router.Common.Float.{Float64}
use jack_router.Device.Clock.{Notice, Stamp}
use jack_router.Device.Cycle.{CycleInfo, Health}
use jack_router.Device.Transfer.{Operation}
use jack_router.Properties.{Address, Answer}
use jack_router.Properties.Base.{Identity}
use jack_router.Properties.OfStream.{Input}
use jack_router.PlugIn.{unsupported_operation, success, fails}
use jack_router.PlugIn.Methods.{
  Method, reply, object_has, object_is_settable, object_data_size, object_data, object_set_data,
  device_perform, device_start, device_stop, device_zero_time_stamp, device_will_do, device_begin,
  device_do,
}
use jack_router.PlugIn.Calls.{
  Call, throw_if_null, required, throw_if_other, with_object, with_device, if_has, if_settable,
  caught, ◌>>=◌, ◌>>◌,
}

module _ {Value : Type 0} (in_driver id : ℕ) where
  unfoldable pub has_method : Address → ℕ → Method Value Bool
  unfolding object_has
  has_method a o c = (reply (object_has id a o c), c)

  unfoldable pub settable_method : Address → ℕ → Method Value Bool
  unfolding object_has object_is_settable
  settable_method a o c =
      if_has (reply (object_has id a o c))
        (λ c'. (reply (object_is_settable id a.selector o c'), c')) c

  unfoldable pub size_method : Address → ℕ → Method Value ℕ
  unfolding object_has object_data_size
  size_method a o c =
      if_has (reply (object_has id a o c)) (λ c'. (reply (object_data_size id a o c'), c')) c

  unfoldable pub sa_has_property : Option Address → Call Value Bool
  unfolding with_object has_method
  sa_has_property a =
      caught
        (do throw_if_other in_driver; address ← required a; with_object id (has_method address))

  unfoldable pub sa_is_property_settable : Option Address → ℕ → Call Value Bool
  unfolding with_object settable_method
  sa_is_property_settable a out = do
    throw_if_other in_driver
    address ← required a
    throw_if_null out
    with_object id (settable_method address)

  unfoldable pub sa_get_property_data_size : Option Address → ℕ → Call Value ℕ
  unfolding with_object size_method
  sa_get_property_data_size a out = do
    throw_if_other in_driver
    address ← required a
    throw_if_null out
    with_object id (size_method address)

module _ (F : Float64) (plug_in_identity device_identity : Identity) (in_driver id : ℕ) where
  open F use {Value}

  unfoldable pub data_method : Address → ℕ → ℕ → ℕ → Method Value (Answer Value)
  unfolding object_has object_data
  data_method a qualifier_size in_size o c =
      if_has (reply (object_has id a o c))
        (λ c'. (
          reply (object_data F plug_in_identity device_identity id a qualifier_size in_size o c'),
          c',
        ))
        c

  unfoldable pub set_method : Address → Input Value → ℕ → Method Value (Option ℕ)
  unfolding object_has object_is_settable object_set_data
  set_method a i o c =
      if_has (reply (object_has id a o c))
        (λ c'.
          if_settable (reply (object_is_settable id a.selector o c'))
            (object_set_data F plug_in_identity device_identity id a.selector i o) c')
        c

  unfoldable pub sa_get_property_data : Option Address → ℕ → ℕ → ℕ → ℕ → Call Value (Answer Value)
  unfolding with_object data_method
  sa_get_property_data a qualifier_size in_size out_size out = do
    throw_if_other in_driver
    address ← required a
    throw_if_null out_size
    throw_if_null out
    with_object id (data_method address qualifier_size in_size)

  unfoldable pub sa_set_property_data : Option Address → Input Value → Call Value (Option ℕ)
  unfolding with_object set_method
  sa_set_property_data a i = do
    throw_if_other in_driver
    address ← required a
    with_object id (set_method address i)

  -- `numer` and `denom` are those of `mach_timebase_info`.
  unfoldable pub sa_perform_device_configuration_change : ℕ → ℕ → ℕ → Call Value (Unit {0})
  unfolding with_device device_perform
  sa_perform_device_configuration_change numer denom action = do
    throw_if_other in_driver
    with_device id (device_perform F plug_in_identity device_identity numer denom action)

-- The calls that answer a constant, whatever their arguments.
module _ {Value : Type 0} where
  unfoldable pub sa_create_device : Call Value (Unit {0})
  sa_create_device s = (fails unsupported_operation, s)

  unfoldable pub sa_destroy_device : Call Value (Unit {0})
  sa_destroy_device s = (fails unsupported_operation, s)

  unfoldable pub sa_add_device_client : Call Value (Unit {0})
  sa_add_device_client s = (success tt, s)

  unfoldable pub sa_remove_device_client : Call Value (Unit {0})
  sa_remove_device_client s = (success tt, s)

abbrev pub nothing_done : {Value : Type 0} → ℕ → Method Value (Unit {0})
nothing_done o c = (success tt, c)

module _ (F : Float64) (in_driver id : ℕ) where
  open F use {Value}

  unfoldable pub sa_abort_device_configuration_change : Call Value (Unit {0})
  unfolding with_device
  sa_abort_device_configuration_change = do throw_if_other in_driver; with_device id nothing_done

  -- `zero_value` is 0.0, and `now` and `later` are readings of the host clock.
  unfoldable pub sa_start_io : Value → ℕ → Call Value (Unit {0})
  unfolding with_device device_start
  sa_start_io zero_value now = do
    throw_if_other in_driver
    with_device id (device_start F zero_value now)

  unfoldable pub sa_stop_io : Call Value (Unit {0})
  unfolding with_device device_stop
  sa_stop_io = do throw_if_other in_driver; with_device id (device_stop F)

  unfoldable pub sa_get_zero_time_stamp : ℕ → ℕ → ℕ → ℕ → ℕ → Call Value (Stamp F × List Notice)
  unfolding with_device device_zero_time_stamp
  sa_get_zero_time_stamp now later out_sample_time out_host_time out_seed = do
    throw_if_other in_driver
    throw_if_null out_sample_time
    throw_if_null out_host_time
    throw_if_null out_seed
    with_device id (device_zero_time_stamp F now later)

  unfoldable pub sa_will_do_io_operation : Operation → ℕ → ℕ → Call Value (Bool × Bool)
  unfolding with_device device_will_do
  sa_will_do_io_operation operation out_will_do out_in_place = do
    throw_if_other in_driver
    throw_if_null out_will_do
    throw_if_null out_in_place
    with_device id (device_will_do F operation)

  unfoldable pub sa_begin_io_operation :
      Operation → ℕ → Option (CycleInfo Value) → Call Value (Option Health)
  unfolding with_device device_begin
  sa_begin_io_operation operation n info = do
    throw_if_other in_driver
    i ← required info
    with_device id (device_begin F operation n i)

  unfoldable pub sa_do_io_operation :
      ℕ → Operation → ℕ → Option (CycleInfo Value) → Array → Call Value Array
  unfolding with_device device_do
  sa_do_io_operation stream_id operation n info buffer = do
    throw_if_other in_driver
    i ← required info
    with_device id (device_do F stream_id operation n i buffer)

  unfoldable pub sa_end_io_operation : Option (CycleInfo Value) → Call Value (Unit {0})
  unfolding with_device
  sa_end_io_operation info = do
    throw_if_other in_driver
    i ← required info
    with_device id nothing_done
