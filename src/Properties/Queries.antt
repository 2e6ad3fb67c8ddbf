-- ===== src/Properties/Queries.antt =====
-- The four kinds of queries agree about the properties that an object has, and about their sizes.
use jack_router.Common.{
  ℕ, ◌==◌, ◌≤◌, ◌≡◌, inl, inr, arith, Bool, true, false, ◌&&◌, ltb, if◌then◌else◌, Bool-cases,
  ==_refl,
}
use jack_router.Common.Float.{Float64}
use jack_router.Shm.{num_input_streams, num_output_streams}
use jack_router.Device.{Device, unknown_property, get_stream_id, is_stream_object_id}
use jack_router.Properties.{
  Selector, stream_is_active, element_name, name, manufacturer, device_uid, model_uid, Scope, input,
  Address, Result, ok, throws, faults, Answer,
}
use jack_router.Properties.Base.{Identity}
use jack_router.Properties.OfDevice.{
  device_has_property, device_get_property_data_size, device_get_property_data,
  device_is_property_settable,
}
use jack_router.Properties.OfStream.{
  stream_has_property, stream_get_property_data_size, stream_get_property_data,
  stream_is_property_settable,
}
use jack_router.Properties.Dispatch.{
  dispatch, has_property, is_property_settable, get_property_data_size, get_property_data,
}

abbrev pub is_ok {ℓ} : {A : Type ℓ} → Result A → Bool
is_ok (ok a) = true
is_ok r = false

ok_true : {b c : Bool} → Path (Result Bool) (ok b) (ok c) → b ≡ c
ok_true h = cc

device_sized :
    (s : Selector) (scope : Scope) (e : ℕ)
    → device_has_property (record { selector = s; scope = scope; element = e }) ≡ true
    → is_ok (device_get_property_data_size (record { selector = s; scope = scope; element = e }))
      ≡ true
unfolding device_has_property device_get_property_data_size
device_sized s scope e h = ground arith

stream_sized :
    (s : Selector) → stream_has_property s ≡ true → is_ok (stream_get_property_data_size s) ≡ true
unfolding stream_has_property stream_get_property_data_size
stream_sized s h = ground arith

abbrev pub is_element_name : Selector → Bool
is_element_name element_name = true
is_element_name s = false

device_settable :
    (s : Selector) (scope : Scope) (e : ℕ)
    → device_has_property (record { selector = s; scope = scope; element = e }) ≡ true
    → if is_element_name s
      then device_is_property_settable s ≡ throws unknown_property
      else is_ok (device_is_property_settable s) ≡ true
unfolding device_has_property device_is_property_settable
device_settable s scope e h = ground arith

stream_settable :
    (s : Selector)
    → stream_has_property s ≡ true
    → if is_element_name s
      then stream_is_property_settable s ≡ throws unknown_property
      else is_ok (stream_is_property_settable s) ≡ true
unfolding stream_has_property stream_is_property_settable
stream_settable s h = ground arith

-- Whatever object the HAL asks about, and whatever the scope and element: if HasProperty says that
-- there is such a property, GetPropertyDataSize answers with a size and throws nothing.
pub has_property_sized :
    {Value : Type 0} (d : Device Value) (id : ℕ) (a : Address)
    → has_property d id a ≡ ok true
    → is_ok (get_property_data_size d id a) ≡ true
unfolding has_property get_property_data_size dispatch
has_property_sized d id a h = elim (Bool-cases (id == d.object_id)) [
  | inl e ↦ rw e (device_sized a.selector a.scope a.element (ok_true (rw e at h)))
  | inr e ↦ elim (Bool-cases (is_stream_object_id d id)) [
    | inl f ↦ rw (e, f) (stream_sized a.selector (ok_true (rw (e, f) at h)))
    | inr f ↦ ground (arith, rw (e, f) at h)
  ]
]

-- How much an answer takes.
abbrev pub written : {Value : Type 0} → Result (Answer Value) → Result ℕ
written (ok b) = ok b.size
written (throws e) = throws e
written faults = faults

module _ (F : Float64) (identity : Identity) (d : Device F.Value) where
  open F use {Value}

  device_fits :
      (s : Selector) (scope : Scope) (e n : ℕ)
      → let a : Address = record { selector = s; scope = scope; element = e } in
        device_get_property_data_size a ≡ ok n
        → written (device_get_property_data F identity d a n) ≡ ok n
  unfolding device_get_property_data_size device_get_property_data
  device_fits s scope e n h = ground arith

  -- Whether the query of a stream's activity reads the flag of a stream that there is; a query of any
  -- other property reads none.
  abbrev pub is_flag : ℕ → Selector → Scope → Bool
  is_flag id stream_is_active input = ltb (get_stream_id d id) num_input_streams
  is_flag id stream_is_active scope = ltb (get_stream_id d id) num_output_streams
  is_flag id s scope = true

  stream_fits :
      (id : ℕ) (s : Selector) (scope : Scope) (e n : ℕ)
      → let a : Address = record { selector = s; scope = scope; element = e } in
        is_flag id s scope ≡ true
        → stream_get_property_data_size s ≡ ok n
        → written (stream_get_property_data F identity d id a n) ≡ ok n
  unfolding stream_get_property_data_size stream_get_property_data
  stream_fits id s scope e n f h = ground arith

  -- GetPropertyData with as much space as GetPropertyDataSize reports succeeds and fills exactly that
  -- space, for every property of the device and of its streams; only the activity of a stream has a
  -- condition, that the scope's array has a flag for the stream.
  pub get_property_data_fits :
      (id : ℕ) (a : Address) (n : ℕ)
      → is_flag id a.selector a.scope ≡ true
      → get_property_data_size d id a ≡ ok n
      → written (get_property_data F identity d id a n) ≡ ok n
  unfolding get_property_data_size get_property_data dispatch
  get_property_data_fits id a n g h = elim (Bool-cases (id == d.object_id)) [
    | inl e ↦ rw e (device_fits a.selector a.scope a.element n (rw e at h))
    | inr e ↦ elim (Bool-cases (is_stream_object_id d id)) [
      | inl f ↦ rw (e, f) (stream_fits id a.selector a.scope a.element n g (rw (e, f) at h))
      | inr f ↦ ground (arith, rw (e, f) at h)
    ]
  ]

  -- The four strings of the device, which are guarded by the size of an ID.
  abbrev pub is_device_string : Selector → Bool
  is_device_string name = true
  is_device_string manufacturer = true
  is_device_string device_uid = true
  is_device_string model_uid = true
  is_device_string s = false

  device_bounded :
      (s : Selector) (scope : Scope) (e in_size n : ℕ)
      → let a : Address = record { selector = s; scope = scope; element = e } in
        written (device_get_property_data F identity d a in_size) ≡ ok n
        → n ≤ (if is_device_string s && ltb in_size 8 then 8 else in_size)
  unfolding device_get_property_data
  device_bounded s scope e in_size n h = ground arith

  stream_bounded :
      (id : ℕ) (s : Selector) (scope : Scope) (e in_size n : ℕ)
      → let a : Address = record { selector = s; scope = scope; element = e } in
        written (stream_get_property_data F identity d id a in_size) ≡ ok n → n ≤ in_size
  unfolding stream_get_property_data
  stream_bounded id s scope e in_size n h = ground arith

  -- An answer never takes more than the space that the caller gave, but for the four strings of the
  -- device, which take at most 8 bytes where the space is smaller.
  pub get_property_data_bounded :
      (id : ℕ) (a : Address) (in_size n : ℕ)
      → written (get_property_data F identity d id a in_size) ≡ ok n
      → n ≤ (
          if (id == d.object_id) && is_device_string a.selector && ltb in_size 8
          then 8
          else in_size)
  unfolding get_property_data dispatch
  get_property_data_bounded id a in_size n h = elim (Bool-cases (id == d.object_id)) [
    | inl e ↦ rw e (device_bounded a.selector a.scope a.element in_size n (rw e at h))
    | inr e ↦ elim (Bool-cases (is_stream_object_id d id)) [
      | inl f ↦ rw e (stream_bounded id a.selector a.scope a.element in_size n (rw (e, f) at h))
      | inr f ↦ ground (arith, rw (e, f) at h)
    ]
  ]

  overrun_at :
      (s : Selector) (scope : Scope) (e in_size : ℕ)
      → is_device_string s ≡ true
      → 4 ≤ in_size
      → let a : Address = record { selector = s; scope = scope; element = e } in
        written (device_get_property_data F identity d a in_size) ≡ ok 8
  unfolding device_get_property_data
  overrun_at s scope e in_size h b = ground arith

  -- The guards of the device's name, manufacturer, UID and model UID are too weak: with any space from
  -- 4 bytes on their answers take 8.
  pub get_property_data_overruns :
      (a : Address) (in_size : ℕ)
      → is_device_string a.selector ≡ true
      → 4 ≤ in_size
      → written (get_property_data F identity d d.object_id a in_size) ≡ ok 8
  unfolding get_property_data dispatch
  get_property_data_overruns a in_size h b =
      rw (==_refl d.object_id) (overrun_at a.selector a.scope a.element in_size h b)

-- Of all the properties that HasProperty announces, IsPropertySettable knows all but one: the element
-- names, which it refuses as unknown.
pub has_property_settable :
    {Value : Type 0} (d : Device Value) (id : ℕ) (a : Address)
    → has_property d id a ≡ ok true
    → if is_element_name a.selector
      then is_property_settable d id a.selector ≡ throws unknown_property
      else is_ok (is_property_settable d id a.selector) ≡ true
unfolding has_property is_property_settable dispatch
has_property_settable d id a h = elim (Bool-cases (id == d.object_id)) [
  | inl e ↦ rw e (device_settable a.selector a.scope a.element (ok_true (rw e at h)))
  | inr e ↦ elim (Bool-cases (is_stream_object_id d id)) [
    | inl f ↦ rw (e, f) (stream_settable a.selector (ok_true (rw (e, f) at h)))
    | inr f ↦ ground (arith, rw (e, f) at h)
  ]
]
