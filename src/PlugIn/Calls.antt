-- ===== src/PlugIn/Calls.antt =====
-- The calls of SA_PlugIn.cpp: check the arguments, find the object and hold a reference to it, call it,
-- and give the reference back.
use jack_router.Common.{ℕ, Bool, true, false, not, ◌==◌, if◌then◌else◌, Option, none, some}
use jack_router.Device.{Error, bad_object, illegal_operation, unknown_property}
use jack_router.Objects.{copy_object_by_object_id, release_object}
use jack_router.PlugIn.{
  hardware, unsupported_operation, Reply, success, fails, faults, Contents, Driver,
}
use jack_router.PlugIn.Methods.{Method}

abbrev pub Call : Type 0 → Type 0 → Type 0
Call Value A = Driver Value → Reply A × Driver Value

abbrev pub continue : {Value A B : Type 0} → Reply A → (A → Call Value B) → Call Value B
continue (success a) f s = f a s
continue (fails e) f s = (fails e, s)
continue faults f s = (faults, s)

infixl 5 ◌>>=◌ ◌>>◌
abbrev pub ◌>>=◌ : {Value A B : Type 0} → Call Value A → (A → Call Value B) → Call Value B
◌>>=◌ m f s = let (r, s') = m s in continue r f s'

abbrev pub ◌>>◌ : {Value B : Type 0} → Call Value (Unit {0}) → Call Value B → Call Value B
m >> k = m >>= λ _. k

-- `ThrowIf`
abbrev pub throw_if : {Value : Type 0} → Bool → Error → Call Value (Unit {0})
throw_if true e s = (fails (hardware e), s)
throw_if false e s = (success tt, s)

-- `ThrowIfNULL` of a pointer, and of a reference that is used afterwards.
abbrev pub throw_if_null : {Value : Type 0} → ℕ → Call Value (Unit {0})
throw_if_null p = throw_if (p == 0) illegal_operation

abbrev pub required : {Value A : Type 0} → Option A → Call Value A
required none s = (fails (hardware illegal_operation), s)
required (some a) s = (success a, s)

abbrev pub throw_if_other : {Value : Type 0} → ℕ → Call Value (Unit {0})
throw_if_other in_driver s = throw_if (not (in_driver == s.contents.reference)) bad_object s

module _ {Value A : Type 0} where
  -- A method, on the contents.
  abbrev pub invoke : Method Value A → Call Value A
  invoke f s = let (r, c) = f s.contents in (r, record s { contents = c })

  -- SA_ObjectReleaser, from its constructor to its destructor.
  unfoldable pub with_object : ℕ → (ℕ → Method Value A) → Call Value A
  unfolding copy_object_by_object_id release_object
  with_object id f s =
      let (object, held) = copy_object_by_object_id id s.objects in
      if object == 0
      then (fails (hardware bad_object), record s { objects = held })
      else (let (r, c) = f object s.contents in
          (r, record { objects = (release_object object held).1; contents = c }))

  -- CopyObjectOfClassByObjectID<SA_Device> casts whatever object it finds.
  abbrev pub as_device : (ℕ → Method Value A) → ℕ → Method Value A
  as_device f o c = if o == c.plug_in then (faults, c) else f o c

  unfoldable pub with_device : ℕ → (ℕ → Method Value A) → Call Value A
  unfolding with_object
  with_device id f = with_object id (as_device f)

  -- What is done with an object that has the property.
  abbrev pub if_has : Reply Bool → (Contents Value → Reply A × Contents Value) → Method Value A
  if_has (success true) f c = f c
  if_has (success false) f c = (fails (hardware unknown_property), c)
  if_has (fails e) f c = (fails e, c)
  if_has faults f c = (faults, c)

  abbrev pub if_settable : Reply Bool → (Contents Value → Reply A × Contents Value) → Method Value A
  if_settable (success true) f c = f c
  if_settable (success false) f c = (fails unsupported_operation, c)
  if_settable (fails e) f c = (fails e, c)
  if_settable faults f c = (faults, c)

-- Every exception is caught, and the answer is false then.
abbrev or_false : Reply Bool → Reply Bool
or_false (fails e) = success false
or_false r = r

abbrev pub caught : {Value : Type 0} → Call Value Bool → Call Value Bool
caught m s = (or_false (m s).0, (m s).1)
