-- ===== src/PlugIn/Object.antt =====
-- SA_PlugIn's property operations.
use jack_router.Common.{ℕ, ◌*◌, Bool, true, false, ltb, if◌then◌else◌, List}
use jack_router.Common.Size.{length, take}
use jack_router.Device.{bad_property_size}
use jack_router.Properties.{
  Selector, manufacturer, owned_objects, device_list, translate_uid_to_device, resource_bundle,
  Result, ok, throws, apple_inc, empty_text, string, ids, nothing, Answer, sizeof_string, sizeof_id,
  guarded, sized,
}
use jack_router.Properties.Base.{
  Identity, object_has_property, object_is_property_settable, object_get_property_data_size,
  object_get_property_data,
}
use jack_router.Properties.OfDevice.{items}

unfoldable pub plug_in_has_property : Selector → Bool
unfolding object_has_property
plug_in_has_property manufacturer = true
plug_in_has_property device_list = true
plug_in_has_property translate_uid_to_device = true
plug_in_has_property resource_bundle = true
plug_in_has_property s = object_has_property s

unfoldable pub plug_in_is_property_settable : Selector → Result Bool
unfolding object_is_property_settable
plug_in_is_property_settable manufacturer = ok false
plug_in_is_property_settable device_list = ok false
plug_in_is_property_settable translate_uid_to_device = ok false
plug_in_is_property_settable resource_bundle = ok false
plug_in_is_property_settable s = object_is_property_settable s

-- `devices` is the device list.
unfoldable pub plug_in_get_property_data_size : List ℕ → Selector → Result ℕ
unfolding object_get_property_data_size
plug_in_get_property_data_size devices manufacturer = ok sizeof_string
plug_in_get_property_data_size devices owned_objects = ok (length devices * sizeof_id)
plug_in_get_property_data_size devices device_list = ok (length devices * sizeof_id)
plug_in_get_property_data_size devices translate_uid_to_device = ok sizeof_id
plug_in_get_property_data_size devices resource_bundle = ok sizeof_string
plug_in_get_property_data_size devices s = object_get_property_data_size s

-- The first devices, as many as there is room for.
abbrev devices_answer : {Value : Type 0} → List ℕ → ℕ → Result (Answer Value)
devices_answer devices in_size =
    let n = items in_size sizeof_id (length devices) in
    ok (record { size = n * sizeof_id; datum = ids (take n devices) })

unfoldable pub plug_in_get_property_data :
    {Value : Type 0} → Identity → List ℕ → Selector → ℕ → ℕ → Result (Answer Value)
unfolding object_get_property_data
plug_in_get_property_data i devices manufacturer qualifier_size in_size =
    sized in_size sizeof_string (string apple_inc)
plug_in_get_property_data i devices owned_objects qualifier_size in_size =
    devices_answer devices in_size
plug_in_get_property_data i devices device_list qualifier_size in_size =
    devices_answer devices in_size
plug_in_get_property_data i devices translate_uid_to_device qualifier_size in_size =
    if ltb qualifier_size sizeof_string
    then throws bad_property_size
    else sized in_size sizeof_id nothing
plug_in_get_property_data i devices resource_bundle qualifier_size in_size =
    guarded in_size sizeof_id sizeof_string (string empty_text)
plug_in_get_property_data i devices s qualifier_size in_size = object_get_property_data i s in_size
