-- ===== src/PlugIn.antt =====
-- The plug-in of driver/JackBridge/Plug-In/SA_PlugIn.cpp: its state, what an entry point answers, and
-- the reference count of its COM interface.
pub mod Object
pub mod Methods
pub mod Calls
pub mod Entry
pub mod Lifecycle
pub mod References
pub mod Balance
pub mod Service
pub mod Answers
pub mod Activation
pub mod Loading
pub mod Unloading
pub mod Rates
use jack_router.Common.{
  ℕ, ◌+◌, ◌-◌, ◌^◌, Bool, true, false, ◌&&◌, ◌||◌, not, ◌==◌, if◌then◌else◌, u32, List,
}
use jack_router.Device.{Device, Error, bad_object, illegal_operation}
use jack_router.Shm.{Shm}
use jack_router.Objects.{ObjectMap}

-- The error of an entry point: one that the driver throws, or one that only an entry point gives.
pub data Status : Type 0 where
  hardware : Error → Status
  unsupported_operation no_interface : Status

-- `faults`: an access outside an array, or a call through a pointer to another class.
pub data Reply {ℓ} (A : Type ℓ) : Type ℓ where
  success : A → Reply A
  fails : Status → Reply A
  faults : Reply A

-- What lies behind the object map: the plug-in's fields, the statics of its file, and the devices by
-- their address, each with the region that it has mapped. The plug-in's address is 0 while there is
-- none, and so is the host.
pub record Contents (Value : Type 0) : Type 0 where
  pub reference : ℕ  -- gAudioServerPlugInDriverRef
  pub reference_count : ℕ  -- UInt32
  pub plug_in : ℕ
  pub is_active : Bool
  pub device_ids : List ℕ
  pub host : ℕ
  pub device : ℕ → Device Value
  pub shm : ℕ → Shm

pub record Driver (Value : Type 0) : Type 0 where
  pub objects : ObjectMap
  pub contents : Contents Value

abbrev pub uint32_max : ℕ
uint32_max = 2 ^ 32 - 1

-- The interfaces that QueryInterface may be asked for; `invalid` is no UUID.
pub data Interface : Type 0 where
  unknown driver_interface other_interface invalid : Interface

abbrev is_interface : Interface → Bool
is_interface unknown = true
is_interface driver_interface = true
is_interface i = false

abbrev is_uuid : Interface → Bool
is_uuid invalid = false
is_uuid i = true

module _ {Value : Type 0} where
  -- `SA_Create`: the interface, or 0 for NULL, for the type that is asked for.
  unfoldable pub sa_create : Bool → Contents Value → ℕ
  sa_create is_plug_in_type c = if is_plug_in_type then c.reference else 0

  -- The answer is what is stored through `out_interface`.
  unfoldable pub sa_query_interface : ℕ → Interface → ℕ → Contents Value → Reply ℕ × Contents Value
  sa_query_interface in_driver i out_interface c =
      if not (in_driver == c.reference)
      then (fails (hardware bad_object), c)
      else if out_interface == 0 || not (is_uuid i)
      then (fails (hardware illegal_operation), c)
      else if not (is_interface i) || (c.reference_count == uint32_max)
      then (fails no_interface, c)
      else (success c.reference, record c { reference_count = u32 (c.reference_count + 1) })

  unfoldable pub sa_add_ref : ℕ → Contents Value → ℕ × Contents Value
  sa_add_ref in_driver c =
      if not (in_driver == c.reference) || (c.reference_count == uint32_max)
      then (0, c)
      else (u32 (c.reference_count + 1), record c { reference_count = u32 (c.reference_count + 1) })

  -- The decrement is of a `UInt32`.
  unfoldable pub sa_release : ℕ → Contents Value → ℕ × Contents Value
  sa_release in_driver c =
      if not (in_driver == c.reference) || (c.reference_count == uint32_max) then (0, c) else (
        u32 (c.reference_count + uint32_max),
        record c { reference_count = u32 (c.reference_count + uint32_max) },
      )

  unfoldable pub sa_initialize : ℕ → ℕ → Contents Value → Reply (Unit {0}) × Contents Value
  sa_initialize in_driver host c =
      if in_driver == c.reference
      then (success tt, record c { host = host })
      else (fails (hardware bad_object), c)
