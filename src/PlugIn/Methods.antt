-- ===== src/PlugIn/Methods.antt =====
-- What the entry points call on an object that they have found: a method of SA_PlugIn or of SA_Device,
-- by the class of the object at that address.
use jack_router.Common.{ℕ, Bool, ◌==◌, if◌then◌else◌, Option, none, some, List, []}
use jack_router.Common.Array.{Array, update}
use jack_router.Common.Float.{Float64}
use jack_router.Shm.{Shm}
use jack_router.Device.{Device, Error, unknown_property, start_io, stop_io}
use jack_router.Device.Clock.{Notice, Stamp, get_zero_time_stamp}
use jack_router.Device.Cycle.{CycleInfo, Health, begin_io_operation}
use jack_router.Device.Transfer.{Operation, will_do_io_operation, do_io_operation}
use jack_router.Properties.{Selector, Address, Result, ok, throws, faults, Answer}
use jack_router.Properties.Base.{Identity}
use jack_router.Properties.OfStream.{Input, Changed}
use jack_router.Properties.Dispatch.{
  has_property, is_property_settable, get_property_data_size, get_property_data, set_property_data,
  perform_config_change,
}
use jack_router.PlugIn.{hardware, Reply, success, fails, Contents}
use jack_router.PlugIn.Object.{
  plug_in_has_property, plug_in_is_property_settable, plug_in_get_property_data_size,
  plug_in_get_property_data,
}

abbrev pub Method : Type 0 → Type 0 → Type 0
Method Value A = Contents Value → Reply A × Contents Value

abbrev pub reply {ℓ} : {A : Type ℓ} → Result A → Reply A
reply (ok a) = success a
reply (throws e) = fails (hardware e)
reply faults = Reply.faults

abbrev pub thrown {ℓ} : {A : Type ℓ} → A → Option Error → Reply A
thrown a none = success a
thrown a (some e) = fails (hardware e)

module _ {Value : Type 0} where
  -- The device at an address, and its region.
  abbrev pub put : ℕ → Device Value → Shm → Contents Value → Contents Value
  put o d m c = record c { device = update c.device o d; shm = update c.shm o m }

  -- A virtual call at the address `o`.
  abbrev virtual {ℓ} : {A : Type ℓ} → ℕ → Result A → Result A → Contents Value → Result A
  virtual o of_plug_in of_device c = if o == c.plug_in then of_plug_in else of_device

  unfoldable pub object_has : ℕ → Address → ℕ → Contents Value → Result Bool
  unfolding plug_in_has_property has_property
  object_has id a o c =
      virtual o (ok (plug_in_has_property a.selector)) (has_property (c.device o) id a) c

  unfoldable pub object_is_settable : ℕ → Selector → ℕ → Contents Value → Result Bool
  unfolding plug_in_is_property_settable is_property_settable
  object_is_settable id s o c =
      virtual o (plug_in_is_property_settable s) (is_property_settable (c.device o) id s) c

  unfoldable pub object_data_size : ℕ → Address → ℕ → Contents Value → Result ℕ
  unfolding plug_in_get_property_data_size get_property_data_size
  object_data_size id a o c =
      virtual o (plug_in_get_property_data_size c.device_ids a.selector)
        (get_property_data_size (c.device o) id a) c

  -- `Host_RequestDeviceConfigurationChange` and `Host_PropertiesChanged` say nothing without a host.
  abbrev delivered : Option ℕ → Contents Value → Option ℕ
  delivered request c = if c.host == 0 then none else request

  abbrev heard : List Notice → Contents Value → List Notice
  heard notices c = if c.host == 0 then [] else notices

  abbrev pub changed : ℕ → Result (Changed Value) → Method Value (Option ℕ)
  changed o (ok x) c = (success (delivered x.request c), put o x.device (c.shm o) c)
  changed o (throws e) c = (fails (hardware e), c)
  changed o faults c = (Reply.faults, c)

module _ (F : Float64) where
  open F use {Value}

  module _ (plug_in_identity device_identity : Identity) where
    unfoldable pub object_data : ℕ → Address → ℕ → ℕ → ℕ → Contents Value → Result (Answer Value)
    unfolding plug_in_get_property_data get_property_data
    object_data id a qualifier_size in_size o c =
        virtual o
          (plug_in_get_property_data plug_in_identity c.device_ids a.selector qualifier_size
            in_size)
          (get_property_data F device_identity (c.device o) id a in_size) c

    -- SA_PlugIn::SetPropertyData leaves every selector to SA_Object, which throws. The answer is the
    -- change that the host is asked for.
    unfoldable pub object_set_data : ℕ → Selector → Input Value → ℕ → Method Value (Option ℕ)
    unfolding set_property_data
    object_set_data id s i o c =
        if o == c.plug_in
        then (fails (hardware unknown_property), c)
        else changed o (set_property_data F device_identity (c.device o) id s i) c

    -- `numer` and `denom` are those of `mach_timebase_info`.
    unfoldable pub device_perform : ℕ → ℕ → ℕ → ℕ → Method Value (Unit {0})
    unfolding perform_config_change
    device_perform numer denom action o c = (
      success tt,
      put o (perform_config_change F device_identity (c.device o) numer denom action) (c.shm o) c,
    )

  -- `now` and `later` are readings of the host clock.
  unfoldable pub device_start : Value → ℕ → ℕ → Method Value (Unit {0})
  unfolding start_io
  device_start zero_value now o c =
      let (e, d, m) = start_io zero_value now (c.device o) (c.shm o) in (thrown tt e, put o d m c)

  unfoldable pub device_stop : ℕ → Method Value (Unit {0})
  unfolding stop_io
  device_stop o c = let (d, m) = stop_io (c.device o) (c.shm o) in (success tt, put o d m c)

  unfoldable pub device_zero_time_stamp : ℕ → ℕ → ℕ → Method Value (Stamp F × List Notice)
  unfolding get_zero_time_stamp
  device_zero_time_stamp now later o c =
      let (s, d, m, notices) = get_zero_time_stamp F now later (c.device o) (c.shm o) in
      (success (s, heard notices c), put o d m c)

  unfoldable pub device_will_do : Operation → ℕ → Method Value (Bool × Bool)
  unfolding will_do_io_operation
  device_will_do operation o c = (success (will_do_io_operation operation), c)

  unfoldable pub device_begin : Operation → ℕ → CycleInfo Value → ℕ → Method Value (Option Health)
  unfolding begin_io_operation
  device_begin operation n i o c =
      let (d, m, line) = begin_io_operation F operation n i (c.device o) (c.shm o) in
      (success line, put o d m c)

  abbrev pub transferred : ℕ → Option (Array × Shm) → Method Value Array
  transferred o none c = (Reply.faults, c)
  transferred o (some (buffer, m)) c = (success buffer, put o (c.device o) m c)

  -- The answer is the main buffer afterwards.
  unfoldable pub device_do : ℕ → Operation → ℕ → CycleInfo Value → Array → ℕ → Method Value Array
  unfolding do_io_operation
  device_do stream_id operation n i buffer o c =
      transferred o
        (do_io_operation F stream_id operation n i.input_sample_time i.output_sample_time buffer
          (c.device o) (c.shm o))
        c
