-- ===== src/Properties/Changes.antt =====
-- SetPropertyData: what may be changed, and that a change is what the queries say afterwards.
use jack_router.Common.{ℕ, ◌^◌, ◌==◌, ◌≤◌, ◌<◌, ◌≡◌, ◌≢◌, ◌⊎◌, arith, true, if◌then◌else◌, some}
use jack_router.Common.Float.{Float64}
use jack_router.Device.{Device}
use jack_router.Properties.{
  Selector, stream_is_active, global, input, Result, ok, faults, number, Answer,
}
use jack_router.Properties.Base.{Identity}
use jack_router.Properties.OfStream.{
  Input, Changed, stream_set_property_data, stream_get_property_data,
}
use jack_router.Properties.Dispatch.{
  dispatch, is_property_settable, set_property_data, perform_config_change,
}

-- A conversion of a whole number from Float64 is exact.
abbrev pub Exact : Float64 → Type 0
Exact F = (v : F.Value) (n : ℕ) → n < 2 ^ 53 → F.eq v (F.of_u64 n) ≡ true → F.to_u64 v ≡ n

module _ (F : Float64) (identity : Identity) (d : Device F.Value) where
  open F use {Value, eq, of_u64, to_u64}

  -- SetPropertyData succeeds only for a property that IsPropertySettable allows to be set.
  pub set_property_data_settable :
      (id : ℕ) (s : Selector) (i : Input Value) (c : Changed Value)
      → set_property_data F identity d id s i ≡ ok c
      → is_property_settable d id s ≡ ok true
  unfolding set_property_data is_property_settable dispatch
  set_property_data_settable id s i c h = ground arith

  pub supported :
      (id : ℕ) (s : Selector) (i : Input Value) (c : Changed Value) (r : ℕ)
      → Exact F
      → set_property_data F identity d id s i ≡ ok c
      → c.request ≡ some r
      → (r ≡ 44100) ⊎ (r ≡ 48000)
  unfolding set_property_data dispatch
  supported id s i c r x h e =
      let v = i.as_format.sample_rate in
      let x₁ = x v 44100 (omega arith) in let x₂ = x v 48000 (omega arith) in ground (arith, x₁, x₂)

  pub performed :
      (numer denom r : ℕ)
      → (r ≡ 44100) ⊎ (r ≡ 48000)
      → (perform_config_change F identity d numer denom r).sample_rate_shadow ≡ r
  unfolding perform_config_change
  performed numer denom r h = ground arith

  -- The host is only ever asked for a rate that PerformConfigChange carries out, and one that the
  -- device does not have: the change of rate that SetPropertyData requests, on the device or on a
  -- stream, is what the device's rate is once the host has performed it.
  pub requested_rate :
      (id : ℕ) (s : Selector) (i : Input Value) (c : Changed Value) (r numer denom : ℕ)
      → Exact F
      → set_property_data F identity d id s i ≡ ok c
      → c.request ≡ some r
      → (r ≢ d.sample_rate_shadow)
        × ((perform_config_change F identity d numer denom r).sample_rate_shadow ≡ r)
  unfolding set_property_data dispatch
  requested_rate id s i c r numer denom x h e =
      let p = performed numer denom r (supported id s i c r x h e) in (ground arith, p)

  -- The value of the query, with room for it.
  abbrev read_active : Changed Value → ℕ → ℕ → Result (Answer Value)
  read_active c id e =
      stream_get_property_data F identity c.device id
        (record { selector = stream_is_active; scope = input; element = e }) 4

  abbrev activity_answer : Input Value → Result (Answer Value)
  activity_answer i = ok (record { size = 4; datum = number (if i.as_u32 == 0 then 0 else 1) })

  first_active :
      (i : Input Value) (c : Changed Value) (e : ℕ)
      → stream_set_property_data F identity d (d.input_stream_object_id 0) stream_is_active i ≡ ok c
      → read_active c (d.input_stream_object_id 0) e ≡ activity_answer i
  unfolding stream_set_property_data stream_get_property_data
  first_active i c e h = ground arith

  second_active :
      (i : Input Value) (c : Changed Value) (e : ℕ)
      → d.input_stream_object_id 0 ≢ d.input_stream_object_id 1
      → stream_set_property_data F identity d (d.input_stream_object_id 1) stream_is_active i ≡ ok c
      → read_active c (d.input_stream_object_id 1) e ≡ activity_answer i
  unfolding stream_set_property_data stream_get_property_data
  second_active i c e ne h = ground arith

  -- Setting the activity of an input stream is what its query in the input scope tells afterwards,
  -- for both input streams, if the two have different IDs.
  pub set_active_read :
      (i : Input Value) (c c' : Changed Value) (e : ℕ)
      → d.input_stream_object_id 0 ≢ d.input_stream_object_id 1
      → stream_set_property_data F identity d (d.input_stream_object_id 0) stream_is_active i ≡ ok c
      → stream_set_property_data F identity d (d.input_stream_object_id 1) stream_is_active i
        ≡ ok c'
      → (read_active c (d.input_stream_object_id 0) e ≡ activity_answer i)
        × (read_active c' (d.input_stream_object_id 1) e ≡ activity_answer i)
  set_active_read i c c' e ne h h' = (first_active i c e h, second_active i c' e ne h')

  -- In the global scope, which HasProperty accepts too, the query of the second input stream reads
  -- behind the flags of the output streams, of which there is one.
  pub activity_faults :
      (e in_size : ℕ)
      → d.input_stream_object_id 0 ≢ d.input_stream_object_id 1
      → 4 ≤ in_size
      → stream_get_property_data F identity d
          (d.input_stream_object_id 1)
          (record { selector = stream_is_active; scope = global; element = e })
          in_size
        ≡ faults
  unfolding stream_get_property_data
  activity_faults e in_size ne h = ground arith
