-- ===== src/Properties.antt =====
-- The properties of the device and of its streams: what SA_Object.cpp and SA_Device.cpp say about
-- HasProperty, IsPropertySettable, GetPropertyDataSize, GetPropertyData and SetPropertyData.
pub mod Base
pub mod OfDevice
pub mod OfStream
pub mod Dispatch
pub mod Queries
pub mod Changes
use jack_router.Common.{ℕ, ◌*◌, Bool, List, [], ◌∷◌, ltb, if◌then◌else◌}
use jack_router.Device.{Error, bad_property_size}

-- The selectors that the driver names. Latency has one code for devices and streams.
pub data Selector : Type 0 where
  base_class own_class owner owned_objects element_name : Selector
  name manufacturer device_uid model_uid transport_type related_devices : Selector
  clock_domain device_is_alive device_is_running can_be_default_device : Selector
  can_be_default_system_device latency streams control_list safety_offset : Selector
  nominal_sample_rate available_nominal_sample_rates is_hidden : Selector
  preferred_channels_for_stereo preferred_channel_layout zero_time_stamp_period : Selector
  stream_is_active direction terminal_type starting_channel : Selector
  virtual_format physical_format available_virtual_formats : Selector
  available_physical_formats device_list translate_uid_to_device : Selector
  resource_bundle other_selector : Selector

pub data Scope : Type 0 where
  global input output other_scope : Scope

-- AudioObjectPropertyAddress
pub record Address : Type 0 where
  pub selector : Selector
  pub scope : Scope
  pub element : ℕ

-- `faults`: an access outside an array.
pub data Result {ℓ} (A : Type ℓ) : Type ℓ where
  ok : A → Result A
  throws : Error → Result A
  faults : Result A

-- The literals of CFSTR.
pub data Label : Type 0 where
  device_name manufacturer_name device_uid_label device_model_uid : Label
  in1 in2 mod_out1 mod_out2 out1 out2 no_label apple_inc empty_text : Label

-- AudioStreamBasicDescription
pub record Format (Value : Type 0) : Type 0 where
  pub sample_rate : Value
  pub is_linear_pcm : Bool
  pub is_float_native_packed : Bool
  pub bytes_per_packet : ℕ
  pub frames_per_packet : ℕ
  pub bytes_per_frame : ℕ
  pub channels_per_frame : ℕ
  pub bits_per_channel : ℕ

pub data Class : Type 0 where
  object_class stream_class : Class
  of_object : ℕ → Class

-- What a query writes; a list of sample rates stands for ranges of one rate each, and for the formats
-- at these rates.
pub data Datum (Value : Type 0) : Type 0 where
  number : ℕ → Datum Value
  class_of : Class → Datum Value
  virtual_transport microphone speaker stereo_layout nothing : Datum Value
  string : Label → Datum Value
  ids : List ℕ → Datum Value
  pair : ℕ → ℕ → Datum Value
  rate : Value → Datum Value
  rates : List Value → Datum Value
  format : Format Value → Datum Value
  formats : List (Format Value) → Datum Value

-- `outDataSize`, and what was written.
pub record Answer (Value : Type 0) : Type 0 where
  pub size : ℕ
  pub datum : Datum Value

-- The sizes of the types.
abbrev pub sizeof_string : ℕ
sizeof_string = 8

abbrev pub sizeof_u32 : ℕ
sizeof_u32 = 4

abbrev pub sizeof_id : ℕ
sizeof_id = 4

abbrev pub sizeof_float64 : ℕ
sizeof_float64 = 8

abbrev pub sizeof_range : ℕ
sizeof_range = 16

abbrev pub sizeof_format : ℕ
sizeof_format = 40

abbrev pub sizeof_ranged_format : ℕ
sizeof_ranged_format = 56

-- The layout has two channel descriptions of 20 bytes behind its 12.
abbrev pub sizeof_layout : ℕ
sizeof_layout = 52

-- `ThrowIf(inDataSize < least, …)`, then the datum, of `size` bytes.
abbrev pub guarded : {Value : Type 0} → ℕ → ℕ → ℕ → Datum Value → Result (Answer Value)
guarded in_size least size datum =
    if ltb in_size least
    then throws bad_property_size
    else ok (record { size = size; datum = datum })

abbrev pub sized : {Value : Type 0} → ℕ → ℕ → Datum Value → Result (Answer Value)
sized in_size size datum = guarded in_size size size datum
