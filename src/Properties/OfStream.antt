-- ===== src/Properties/OfStream.antt =====
-- SA_Device's Stream_…: the properties of its streams.
use jack_router.Common.{
  ℕ, zero, suc, ◌+◌, ◌*◌, ◌==◌, Bool, true, false, not, ◌&&◌, ltb, if◌then◌else◌, List, [], ◌∷◌,
  Option, none, some,
}
use jack_router.Common.Array.{update}
use jack_router.Common.Float.{Float64}
use jack_router.Shm.{num_input_streams, num_output_streams}
use jack_router.Device.{
  Device, bad_property_size, unsupported_format, unknown_property, get_stream_id,
  is_input_stream_id,
}
use jack_router.Properties.{
  Selector, base_class, own_class, owner, element_name, latency, stream_is_active, direction,
  terminal_type, starting_channel, virtual_format, physical_format, available_virtual_formats,
  available_physical_formats, Scope, input, Address, Result, ok, throws, faults, Label, in1, in2,
  mod_out1, mod_out2, out1, out2, no_label, Format, object_class, stream_class, number, class_of,
  microphone, speaker, string, format, formats, Answer, sizeof_string, sizeof_u32, sizeof_id,
  sizeof_format, sizeof_ranged_format, sized,
}
use jack_router.Properties.Base.{
  Identity, object_has_property, object_is_property_settable, object_get_property_data_size,
  object_get_property_data,
}
use jack_router.Properties.OfDevice.{items}

unfoldable pub stream_has_property : Selector → Bool
unfolding object_has_property
stream_has_property stream_is_active = true
stream_has_property direction = true
stream_has_property terminal_type = true
stream_has_property starting_channel = true
stream_has_property latency = true
stream_has_property virtual_format = true
stream_has_property physical_format = true
stream_has_property available_virtual_formats = true
stream_has_property available_physical_formats = true
stream_has_property element_name = true
stream_has_property s = object_has_property s

unfoldable pub stream_is_property_settable : Selector → Result Bool
unfolding object_is_property_settable
stream_is_property_settable direction = ok false
stream_is_property_settable terminal_type = ok false
stream_is_property_settable starting_channel = ok false
stream_is_property_settable latency = ok false
stream_is_property_settable available_virtual_formats = ok false
stream_is_property_settable available_physical_formats = ok false
stream_is_property_settable stream_is_active = ok true
stream_is_property_settable virtual_format = ok true
stream_is_property_settable physical_format = ok true
stream_is_property_settable s = object_is_property_settable s

unfoldable pub stream_get_property_data_size : Selector → Result ℕ
unfolding object_get_property_data_size
stream_get_property_data_size stream_is_active = ok sizeof_u32
stream_get_property_data_size direction = ok sizeof_u32
stream_get_property_data_size terminal_type = ok sizeof_u32
stream_get_property_data_size starting_channel = ok sizeof_u32
stream_get_property_data_size latency = ok sizeof_u32
stream_get_property_data_size virtual_format = ok sizeof_format
stream_get_property_data_size physical_format = ok sizeof_format
stream_get_property_data_size available_virtual_formats = ok (2 * sizeof_ranged_format)
stream_get_property_data_size available_physical_formats = ok (2 * sizeof_ranged_format)
stream_get_property_data_size element_name = ok sizeof_string
stream_get_property_data_size s = object_get_property_data_size s

abbrev stream_label : Bool → ℕ → ℕ → Label
stream_label true i ch =
    if (i == 0) && (ch == 1)
    then in1
    else if (i == 0) && (ch == 2)
    then in2
    else if (i == 1) && (ch == 1)
    then mod_out1
    else if (i == 1) && (ch == 2)
    then mod_out2
    else no_label
stream_label false i ch =
    if (i == 0) && (ch == 1) then out1 else if (i == 0) && (ch == 2) then out2 else no_label

-- The only format that the driver has, at some rate.
abbrev pub format_at : {Value : Type 0} → Value → Format Value
format_at v = record {
  sample_rate = v;
  is_linear_pcm = true;
  is_float_native_packed = true;
  bytes_per_packet = 8;
  frames_per_packet = 1;
  bytes_per_frame = 8;
  channels_per_frame = 2;
  bits_per_channel = 32;
}

-- All tests of the format but the one of its rate.
abbrev pub is_supported : {Value : Type 0} → Format Value → Bool
is_supported f =
    f.is_linear_pcm
    && f.is_float_native_packed
    && (f.bytes_per_packet == 8)
    && (f.frames_per_packet == 1)
    && (f.bytes_per_frame == 8)
    && (f.channels_per_frame == 2)
    && (f.bits_per_channel == 32)

-- What SetPropertyData is given: a size, and what the data are if they are read as this or that.
pub record Input (Value : Type 0) : Type 0 where
  pub size : ℕ
  pub as_u32 : ℕ
  pub as_format : Format Value

-- The device after the call, and the rate that the host is asked for.
pub record Changed (Value : Type 0) : Type 0 where
  pub device : Device Value
  pub request : Option ℕ

-- The loops over the streams: the first stream with this ID whose state is another one is changed.
unfoldable pub set_active : ℕ → ℕ → (ℕ → ℕ) → ℕ → Bool → (ℕ → Bool) → ℕ → Bool
set_active zero i object_ids id new states = states
set_active (suc n) i object_ids id new states =
    let rest = set_active n (i + 1) object_ids id new states in
    if (id == object_ids i) && differs (states i) new then update states i new else rest
  where
    differs : Bool → Bool → Bool
    differs true b = not b
    differs false b = b

module _ (F : Float64) (identity : Identity) (d : Device F.Value) where
  open F use {Value, of_u64, eq, to_u64}

  -- An array of as many flags as there are streams; reading behind it faults.
  abbrev flag : ℕ → (ℕ → Bool) → ℕ → ℕ → Result (Answer Value)
  flag count states i in_size =
      if ltb in_size sizeof_u32
      then throws bad_property_size
      else if ltb i count
      then ok (record { size = sizeof_u32; datum = number (if states i then 1 else 0) })
      else faults

  -- Which array is read depends on the scope of the address, not on the stream.
  abbrev activity : Scope → ℕ → ℕ → Result (Answer Value)
  activity input i in_size = flag num_input_streams d.input_stream_is_active i in_size
  activity s i in_size = flag num_output_streams d.output_stream_is_active i in_size

  abbrev first_formats : ℕ → List (Format Value)
  first_formats zero = []
  first_formats (suc zero) = format_at (of_u64 44100) ∷ []
  first_formats (suc (suc n)) = format_at (of_u64 44100) ∷ format_at (of_u64 48000) ∷ []

  abbrev format_list : ℕ → Result (Answer Value)
  format_list in_size =
      let n = items in_size sizeof_ranged_format 2 in
      ok (record { size = n * sizeof_ranged_format; datum = formats (first_formats n) })

  unfoldable pub stream_get_property_data : ℕ → Address → ℕ → Result (Answer Value)
  unfolding object_get_property_data get_stream_id is_input_stream_id
  stream_get_property_data id a in_size = elim a.selector [
    | base_class ↦ sized in_size sizeof_u32 (class_of object_class)
    | own_class ↦ sized in_size sizeof_u32 (class_of stream_class)
    | owner ↦ sized in_size sizeof_id (number d.object_id)
    | stream_is_active ↦ activity a.scope (get_stream_id d id) in_size
    | direction ↦ sized in_size sizeof_u32 (number (if is_input_stream_id d id then 1 else 0))
    | terminal_type ↦
        sized in_size sizeof_u32 (if is_input_stream_id d id then microphone else speaker)
    | starting_channel ↦ sized in_size sizeof_u32 (number (get_stream_id d id * 2 + 1))
    | latency ↦ sized in_size sizeof_u32 (number 0)
    | virtual_format ↦
        sized in_size sizeof_format (format (format_at (of_u64 d.sample_rate_shadow)))
    | physical_format ↦
        sized in_size sizeof_format (format (format_at (of_u64 d.sample_rate_shadow)))
    | available_virtual_formats ↦ format_list in_size
    | available_physical_formats ↦ format_list in_size
    | element_name ↦
        sized in_size sizeof_string
          (string (stream_label (is_input_stream_id d id) (get_stream_id d id) a.element))
    | s ↦ object_get_property_data identity s in_size
  ]

  unfoldable pub change_active : ℕ → Bool → Device Value
  unfolding set_active
  change_active id new = record d {
    input_stream_is_active =
        set_active num_input_streams 0 d.input_stream_object_id id new d.input_stream_is_active;
    output_stream_is_active =
        set_active num_output_streams 0 d.output_stream_object_id id new d.output_stream_is_active;
  }

  unfoldable pub change_format : Input Value → Result (Changed Value)
  change_format i =
      let new = i.as_format.sample_rate in
      if not (i.size == sizeof_format)
      then throws bad_property_size
      else if not (is_supported i.as_format)
      then throws unsupported_format
      else if not (eq new (of_u64 44100)) && not (eq new (of_u64 48000))
      then throws unsupported_format
      else ok (record {
        device = d;
        request = if to_u64 new == d.sample_rate_shadow then none else some (to_u64 new);
      })

  unfoldable pub stream_set_property_data : ℕ → Selector → Input Value → Result (Changed Value)
  unfolding change_active change_format
  stream_set_property_data id stream_is_active i =
      if not (i.size == sizeof_u32)
      then throws bad_property_size
      else ok (record { device = change_active id (not (i.as_u32 == 0)); request = none })
  stream_set_property_data id virtual_format i = change_format i
  stream_set_property_data id physical_format i = change_format i
  stream_set_property_data id s i = throws unknown_property
