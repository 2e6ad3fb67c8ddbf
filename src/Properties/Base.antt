-- ===== src/Properties/Base.antt =====
-- SA_Object: the properties that every object has.
use jack_router.Common.{ℕ, Bool, true, false}
use jack_router.Device.{unknown_property}
use jack_router.Properties.{
  Selector, base_class, own_class, owner, owned_objects, Result, ok, throws, of_object, number,
  class_of, nothing, Answer, sizeof_u32, sizeof_id, sized,
}

unfoldable pub object_has_property : Selector → Bool
object_has_property base_class = true
object_has_property own_class = true
object_has_property owner = true
object_has_property owned_objects = true
object_has_property s = false

unfoldable pub object_is_property_settable : Selector → Result Bool
object_is_property_settable base_class = ok false
object_is_property_settable own_class = ok false
object_is_property_settable owner = ok false
object_is_property_settable owned_objects = ok false
object_is_property_settable s = throws unknown_property

unfoldable pub object_get_property_data_size : Selector → Result ℕ
object_get_property_data_size base_class = ok sizeof_u32
object_get_property_data_size own_class = ok sizeof_u32
object_get_property_data_size owner = ok sizeof_id
object_get_property_data_size owned_objects = ok 0
object_get_property_data_size s = throws unknown_property

-- SA_Object's class, base class and owner, fixed when it is made.
pub record Identity : Type 0 where
  pub class_id : ℕ
  pub base_class_id : ℕ
  pub owner_id : ℕ

unfoldable pub object_get_property_data :
    {Value : Type 0} → Identity → Selector → ℕ → Result (Answer Value)
object_get_property_data i base_class in_size =
    sized in_size 4 (class_of (of_object i.base_class_id))
object_get_property_data i own_class in_size = sized in_size 4 (class_of (of_object i.class_id))
object_get_property_data i owner in_size = sized in_size 4 (number i.owner_id)
object_get_property_data i owned_objects in_size = ok (record { size = 0; datum = nothing })
object_get_property_data i s in_size = throws unknown_property
