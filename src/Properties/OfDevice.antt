-- ===== src/Properties/OfDevice.antt =====
-- SA_Device's Device_…: the properties of the device itself.
use jack_router.Common.{
  ℕ, zero, suc, ◌+◌, ◌-◌, ◌*◌, ◌/◌, ◌==◌, Bool, true, false, not, ◌&&◌, ◌||◌, ltb, leb,
  if◌then◌else◌, List, [], ◌∷◌, Option, none, some,
}
use jack_router.Common.Float.{Float64}
use jack_router.Shm.{num_input_streams, num_output_streams}
use jack_router.Device.{Device, bad_property_size, illegal_operation, unknown_property}
use jack_router.Properties.{
  Selector, owned_objects, element_name, name, manufacturer, device_uid, model_uid, transport_type,
  related_devices, clock_domain, device_is_alive, device_is_running, can_be_default_device,
  can_be_default_system_device, latency, streams, control_list, safety_offset, nominal_sample_rate,
  available_nominal_sample_rates, is_hidden, preferred_channels_for_stereo,
  preferred_channel_layout, zero_time_stamp_period, Scope, global, input, output, other_scope,
  Address, Result, ok, throws, Label, device_name, manufacturer_name, device_uid_label,
  device_model_uid, in1, in2, mod_out1, mod_out2, out1, out2, no_label, number, virtual_transport,
  stereo_layout, nothing, string, ids, pair, rate, rates, Answer, sizeof_string, sizeof_u32,
  sizeof_id, sizeof_float64, sizeof_range, sizeof_layout, guarded, sized,
}
use jack_router.Properties.Base.{
  Identity, object_has_property, object_is_property_settable, object_get_property_data_size,
  object_get_property_data,
}

abbrev is_input : Scope → Bool
is_input input = true
is_input s = false

abbrev is_output : Scope → Bool
is_output output = true
is_output s = false

unfoldable pub device_has_property : Address → Bool
unfolding object_has_property
device_has_property a = elim a.selector [
  | name ↦ true
  | manufacturer ↦ true
  | device_uid ↦ true
  | model_uid ↦ true
  | transport_type ↦ true
  | related_devices ↦ true
  | clock_domain ↦ true
  | device_is_alive ↦ true
  | device_is_running ↦ true
  | control_list ↦ true
  | nominal_sample_rate ↦ true
  | available_nominal_sample_rates ↦ true
  | is_hidden ↦ true
  | zero_time_stamp_period ↦ true
  | streams ↦ true
  | latency ↦ is_input a.scope || is_output a.scope
  | safety_offset ↦ is_input a.scope || is_output a.scope
  | preferred_channels_for_stereo ↦ is_input a.scope || is_output a.scope
  | preferred_channel_layout ↦ is_input a.scope || is_output a.scope
  | can_be_default_device ↦ is_input a.scope || is_output a.scope
  | can_be_default_system_device ↦ is_input a.scope || is_output a.scope
  | element_name ↦
      (is_input a.scope && leb 1 a.element && leb a.element 4)
      || (is_output a.scope && leb 1 a.element && leb a.element 2)
  | s ↦ object_has_property s
]

unfoldable pub device_is_property_settable : Selector → Result Bool
unfolding object_is_property_settable
device_is_property_settable name = ok false
device_is_property_settable manufacturer = ok false
device_is_property_settable device_uid = ok false
device_is_property_settable model_uid = ok false
device_is_property_settable transport_type = ok false
device_is_property_settable related_devices = ok false
device_is_property_settable clock_domain = ok false
device_is_property_settable device_is_alive = ok false
device_is_property_settable device_is_running = ok false
device_is_property_settable can_be_default_device = ok false
device_is_property_settable can_be_default_system_device = ok false
device_is_property_settable latency = ok false
device_is_property_settable streams = ok false
device_is_property_settable control_list = ok false
device_is_property_settable safety_offset = ok false
device_is_property_settable available_nominal_sample_rates = ok false
device_is_property_settable is_hidden = ok false
device_is_property_settable preferred_channels_for_stereo = ok false
device_is_property_settable preferred_channel_layout = ok false
device_is_property_settable zero_time_stamp_period = ok false
device_is_property_settable nominal_sample_rate = ok true
device_is_property_settable s = object_is_property_settable s

-- The device owns its streams, and nothing else: kNumberOfSubObjects is kNumberOfStreams, and so on
-- for each side; other scopes leave the answer at 0.
abbrev streams_in : Scope → ℕ
streams_in global = num_input_streams + num_output_streams
streams_in input = num_input_streams
streams_in output = num_output_streams
streams_in other_scope = 0

unfoldable pub device_get_property_data_size : Address → Result ℕ
unfolding object_get_property_data_size
device_get_property_data_size a = elim a.selector [
  | name ↦ ok sizeof_string
  | manufacturer ↦ ok sizeof_string
  | owned_objects ↦ ok (streams_in a.scope * sizeof_id)
  | device_uid ↦ ok sizeof_string
  | model_uid ↦ ok sizeof_string
  | transport_type ↦ ok sizeof_u32
  | related_devices ↦ ok sizeof_id
  | clock_domain ↦ ok sizeof_u32
  | device_is_alive ↦ ok sizeof_u32
  | device_is_running ↦ ok sizeof_u32
  | can_be_default_device ↦ ok sizeof_u32
  | can_be_default_system_device ↦ ok sizeof_u32
  | latency ↦ ok sizeof_u32
  | streams ↦ ok (streams_in a.scope * sizeof_id)
  | control_list ↦ ok 0
  | safety_offset ↦ ok sizeof_u32
  | nominal_sample_rate ↦ ok sizeof_float64
  | available_nominal_sample_rates ↦ ok (2 * sizeof_range)
  | is_hidden ↦ ok sizeof_u32
  | preferred_channels_for_stereo ↦ ok (2 * sizeof_u32)
  | preferred_channel_layout ↦ ok sizeof_layout
  | zero_time_stamp_period ↦ ok sizeof_u32
  | element_name ↦ ok sizeof_string
  | s ↦ object_get_property_data_size s
]

-- The loop that fills the list: `i` counts up.
pub filled : ℕ → ℕ → (ℕ → ℕ) → List ℕ
filled zero i id = []
filled (suc n) i id = id i ∷ filled n (i + 1) id

abbrev device_label : Address → Label
device_label a = elim a.scope [
  | input ↦
      if a.element == 1
      then in1
      else if a.element == 2
      then in2
      else if a.element == 3
      then mod_out1
      else if a.element == 4
      then mod_out2
      else no_label
  | output ↦ if a.element == 1 then out1 else if a.element == 2 then out2 else no_label
  | s ↦ no_label
]

-- `theNumberItemsToFetch`, clamped to the number of items there are.
abbrev pub items : ℕ → ℕ → ℕ → ℕ
items in_size size there = if ltb there (in_size / size) then there else in_size / size

module _ (F : Float64) (identity : Identity) (d : Device F.Value) where
  open F use {Value, of_u64, eq, to_u64}

  abbrev stream_in : Scope → ℕ → ℕ
  stream_in input i = d.input_stream_object_id i
  stream_in output i = d.output_stream_object_id i
  stream_in global i =
      if ltb i num_input_streams
      then d.input_stream_object_id i
      else d.output_stream_object_id (i - num_input_streams)
  stream_in other_scope i = 0

  -- A scope that is none of the three is not clamped, and nothing is written.
  abbrev stream_list : Scope → ℕ → Result (Answer Value)
  stream_list other_scope in_size =
      ok (record { size = in_size / sizeof_id * sizeof_id; datum = nothing })
  stream_list s in_size =
      let n = items in_size sizeof_id (streams_in s) in
      ok (record { size = n * sizeof_id; datum = ids (filled n 0 (stream_in s)) })

  abbrev reported_latency : Scope → ℕ
  reported_latency input = d.reported_latency_input
  reported_latency output = d.reported_latency_output
  reported_latency s = 0

  abbrev first_rates : ℕ → List Value
  first_rates zero = []
  first_rates (suc zero) = of_u64 44100 ∷ []
  first_rates (suc (suc n)) = of_u64 44100 ∷ of_u64 48000 ∷ []

  -- The cases of the switch from kAudioDevicePropertyIsHidden on.
  unfoldable pub device_layout_data : Address → ℕ → Result (Answer Value)
  unfolding object_get_property_data
  device_layout_data a in_size = elim a.selector [
    | is_hidden ↦ sized in_size sizeof_u32 (number 0)
    | preferred_channels_for_stereo ↦ sized in_size (2 * sizeof_u32) (pair 1 2)
    | preferred_channel_layout ↦ sized in_size sizeof_layout stereo_layout
    | zero_time_stamp_period ↦ sized in_size sizeof_u32 (number d.ring_buffer_frame_size)
    | element_name ↦ sized in_size sizeof_string (string (device_label a))
    | s ↦ object_get_property_data identity s in_size
  ]

  -- Those from kAudioDevicePropertyClockDomain to the sample rates.
  unfoldable pub device_state_data : Address → ℕ → Result (Answer Value)
  unfolding device_layout_data filled
  device_state_data a in_size = elim a.selector [
    | clock_domain ↦ sized in_size sizeof_u32 (number 0)
    | device_is_alive ↦ sized in_size sizeof_u32 (number (if d.device_is_alive then 1 else 0))
    | device_is_running ↦ sized in_size sizeof_u32 (number (if ltb 0 d.start_count then 1 else 0))
    | can_be_default_device ↦ sized in_size sizeof_u32 (number 1)
    | can_be_default_system_device ↦ sized in_size sizeof_u32 (number 1)
    | latency ↦ sized in_size sizeof_u32 (number (reported_latency a.scope))
    | streams ↦ stream_list a.scope in_size
    | control_list ↦ ok (record { size = 0; datum = nothing })
    | safety_offset ↦ sized in_size sizeof_u32 (number d.safety_offset_frames)
    | nominal_sample_rate ↦ sized in_size sizeof_float64 (rate (of_u64 d.sample_rate_shadow))
    | available_nominal_sample_rates ↦
        let n = items in_size sizeof_range 2 in
        ok (record { size = n * sizeof_range; datum = rates (first_rates n) })
    | s ↦ device_layout_data a in_size
  ]

  -- The four strings are guarded by the size of an ID.
  unfoldable pub device_get_property_data : Address → ℕ → Result (Answer Value)
  unfolding device_state_data filled
  device_get_property_data a in_size = elim a.selector [
    | name ↦ guarded in_size sizeof_id sizeof_string (string device_name)
    | manufacturer ↦ guarded in_size sizeof_id sizeof_string (string manufacturer_name)
    | owned_objects ↦ stream_list a.scope in_size
    | device_uid ↦ guarded in_size sizeof_id sizeof_string (string device_uid_label)
    | model_uid ↦ guarded in_size sizeof_id sizeof_string (string device_model_uid)
    | transport_type ↦ sized in_size sizeof_u32 virtual_transport
    | related_devices ↦
        let n = items in_size sizeof_id 1 in
        ok (record { size = n * sizeof_id; datum = ids (filled n 0 (λ _. d.object_id)) })
    | s ↦ device_state_data a in_size
  ]

  -- A rate that the device does not have yet is asked for from the host; the answer is the request.
  unfoldable pub device_set_property_data : Selector → ℕ → Value → Result (Option ℕ)
  device_set_property_data nominal_sample_rate in_size new =
      if not (in_size == sizeof_float64)
      then throws bad_property_size
      else if not (eq new (of_u64 44100)) && not (eq new (of_u64 48000))
      then throws illegal_operation
      else ok (if to_u64 new == d.sample_rate_shadow then none else some (to_u64 new))
  device_set_property_data s in_size new = throws unknown_property
