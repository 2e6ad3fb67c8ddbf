-- ===== src/Properties/Dispatch.antt =====
-- SA_Device's property operations, which find the object that a query is about, and
-- PerformConfigChange, which carries out what a change has asked the host for.
use jack_router.Common.{ℕ, ◌==◌, Bool, ◌||◌, if◌then◌else◌, Option}
use jack_router.Common.Float.{Float64}
use jack_router.Device.{Device, bad_object, is_stream_object_id}
use jack_router.Properties.{Selector, Address, Result, ok, throws, faults, Answer}
use jack_router.Properties.Base.{Identity}
use jack_router.Properties.OfDevice.{
  device_has_property, device_is_property_settable, device_get_property_data_size,
  device_get_property_data, device_set_property_data,
}
use jack_router.Properties.OfStream.{
  stream_has_property, stream_is_property_settable, stream_get_property_data_size,
  stream_get_property_data, stream_set_property_data, Input, Changed,
}

module _ {Value : Type 0} (d : Device Value) where
  -- The device itself, one of its streams, or no object of its.
  unfoldable pub dispatch {ℓ} : {A : Type ℓ} → ℕ → Result A → Result A → Result A
  unfolding is_stream_object_id
  dispatch id device stream =
      if id == d.object_id
      then device
      else if is_stream_object_id d id
      then stream
      else throws bad_object

  unfoldable pub has_property : ℕ → Address → Result Bool
  unfolding dispatch device_has_property stream_has_property
  has_property id a = dispatch id (ok (device_has_property a)) (ok (stream_has_property a.selector))

  unfoldable pub is_property_settable : ℕ → Selector → Result Bool
  unfolding dispatch device_is_property_settable stream_is_property_settable
  is_property_settable id s =
      dispatch id (device_is_property_settable s) (stream_is_property_settable s)

  unfoldable pub get_property_data_size : ℕ → Address → Result ℕ
  unfolding dispatch device_get_property_data_size stream_get_property_data_size
  get_property_data_size id a =
      dispatch id (device_get_property_data_size a) (stream_get_property_data_size a.selector)

module _ (F : Float64) (identity : Identity) (d : Device F.Value) where
  open F use {Value, of_u64, mul, div}

  unfoldable pub get_property_data : ℕ → Address → ℕ → Result (Answer Value)
  unfolding dispatch device_get_property_data stream_get_property_data
  get_property_data id a in_size =
      dispatch d id (device_get_property_data F identity d a in_size)
        (stream_get_property_data F identity d id a in_size)

  -- The device's own change leaves its state to PerformConfigChange.
  abbrev only_request : Result (Option ℕ) → Result (Changed Value)
  only_request (ok request) = ok (record { device = d; request = request })
  only_request (throws e) = throws e
  only_request faults = faults

  unfoldable pub set_property_data : ℕ → Selector → Input Value → Result (Changed Value)
  unfolding dispatch device_set_property_data stream_set_property_data
  set_property_data id s i =
      dispatch d id
        (only_request (device_set_property_data F identity d s i.size i.as_format.sample_rate))
        (stream_set_property_data F identity d id s i)

  -- `numer` and `denom` are those of `mach_timebase_info`.
  unfoldable pub perform_config_change : ℕ → ℕ → ℕ → Device Value
  perform_config_change numer denom new =
      if (new == 44100) || (new == 48000)
      then record d {
        sample_rate_shadow = new;
        host_ticks_per_frame =
            div (mul (div (of_u64 denom) (of_u64 numer)) (of_u64 1_000_000_000)) (of_u64 new);
      }
      else d
