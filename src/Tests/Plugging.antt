-- ===== src/Tests/Plugging.antt =====
-- The plug-in and its entry points, at concrete inputs.
use jack_router.Common.{
  ◌≡◌, ◌≢◌, ◌⊎◌, refl, arith, inr, some, none, true, false, List, [], ◌∷◌, map, ℕ, ==_iff,
}
use jack_router.Device.Cycle.{CycleInfo}
use jack_router.Device.Transfer.{read_input}
use jack_router.Device.{get_stream_id}
use jack_router.Objects.Invariant.{IsInfo, IsValid}
use jack_router.Properties.{Address, device_list, virtual_format, global, nominal_sample_rate}
use jack_router.Properties.Base.{Identity}
use jack_router.PlugIn.{
  Contents, Driver, success, fails, no_interface, driver_interface, uint32_max, sa_query_interface,
  sa_add_ref, sa_release,
}
use jack_router.PlugIn.Methods.{device_stop}
use jack_router.PlugIn.Calls.{with_object}
use jack_router.PlugIn.Entry.{
  sa_has_property, sa_get_property_data_size, sa_get_property_data, sa_set_property_data,
  sa_perform_device_configuration_change,
}
use jack_router.PlugIn.Balance.{CanRefer, call_by_id, with_object-call_by_id}
use jack_router.PlugIn.Service.{
  has_property, Request, start_io, stop_io, get_zero_time_stamp, do_io_operation, serve, serve_all,
}
use jack_router.PlugIn.Service.Keeping.{serve_all-objects}
use jack_router.PlugIn.Service.Refusals.{serve_refused}
use jack_router.PlugIn.Service.Uses.{LeadsTo, Uses}
use jack_router.PlugIn.Service.Io.{on_device_all, serve_all-on_device}
use jack_router.PlugIn.Answers.{reply_size, sa_get_property_data_fits}
use jack_router.PlugIn.References.{release_underflows}
use jack_router.PlugIn.Lifecycle.{Opening, static_initializer, deactivate_plug_in}
use jack_router.PlugIn.Activation.{
  plug_in_info, device_info, two_objects, opened, initial, IsUp, IsWithout,
}
use jack_router.PlugIn.Loading.{static_initializer_cases}
use jack_router.PlugIn.Rates.{requested_rate_performed}
use jack_router.Properties.OfStream.{Input, format_at}
use jack_router.Properties.Changes.{Exact}
use jack_router.PlugIn.Unloading.{IsDown, deactivate_plug_in-IsDown}
use jack_router.Tests.Data.{silent, whole, device, region, answers, kernel}

abbrev identity : Identity
identity = record { class_id = 2; base_class_id = 1; owner_id = 1 }

abbrev contents : Contents ℕ
contents = record {
  reference = 9;
  reference_count = 1;
  plug_in = 500;
  is_active = true;
  device_ids = 32 ∷ [];
  host = 1;
  device = λ _. device;
  shm = λ _. region 1;
}

abbrev driver : Driver ℕ
driver = record { objects = two_objects 500 700; contents = contents }

plug_in-IsInfo : IsInfo (plug_in_info 500)
plug_in-IsInfo = record {
  counted = omega arith;
  bounded = omega arith;
  named = λ e. ground arith;
  object_set = λ e. ground arith;
  distinct = (refl, tt);
}

device-IsInfo : IsInfo (device_info 700)
device-IsInfo = record {
  counted = omega arith;
  bounded = omega arith;
  named = λ e. ground arith;
  object_set = λ e. ground arith;
  distinct = (refl, (refl, (refl, (refl, tt))));
}

driver-IsValid : IsValid (two_objects 500 700)
driver-IsValid = (
  plug_in-IsInfo,
  refl,
  (refl, tt),
  (device-IsInfo, refl, (refl, (refl, (refl, (refl, tt)))), tt),
)

can_refer : (id : ℕ) → CanRefer id (two_objects 500 700)
can_refer id o e = ground arith

with_object-call_by_id_example :
    with_object 33 (device_stop whole) driver ≡ call_by_id 33 (device_stop whole) driver
with_object-call_by_id_example =
    with_object-call_by_id 33 (device_stop whole) driver driver-IsValid (can_refer 33)

abbrev requests : List (ℕ × Request ℕ)
requests =
    (32, start_io 100)
    ∷ (99, stop_io)
    ∷ (32, get_zero_time_stamp 200 201 1 2 3)
    ∷ (32, stop_io)
    ∷ []

serve_all-objects_example :
    (serve_all whole 0 identity identity 9 requests driver).objects ≡ two_objects 500 700
serve_all-objects_example =
    serve_all-objects whole 0 identity identity 9 requests driver driver-IsValid can_refer

abbrev asked : Address
asked = record { selector = device_list; scope = global; element = 0 }

-- No object has the ID 99.
serve_refused_example :
    (serve whole 0 identity identity 9 99 (has_property (some asked)) driver ≡ (success tt, driver))
    × (sa_has_property 9 99 (some asked) driver ≡ (success false, driver))
serve_refused_example =
    serve_refused whole 0 identity identity 9 99 (has_property (some asked)) driver refl

device-LeadsTo : LeadsTo 32 700 driver
device-LeadsTo = record {
  valid = driver-IsValid;
  can_refer = can_refer 32;
  leads = refl;
  is_device = refl;
}

abbrev cycle : CycleInfo ℕ
cycle = record {
  current_host_time = 150;
  current_sample_time = 64;
  input_host_time = 120;
  input_sample_time = 0;
  output_host_time = 180;
  output_sample_time = 128;
}

abbrev device_requests : List (Request ℕ)
device_requests =
    start_io 100
    ∷ do_io_operation 33 read_input 64 (some cycle) (silent 128)
    ∷ get_zero_time_stamp 200 201 1 2 3
    ∷ stop_io
    ∷ []

serve_all-on_device_example :
    Uses 700
      (on_device_all whole 0 identity identity device_requests
        (driver.contents.device 700, driver.contents.shm 700))
      driver
      (serve_all whole 0 identity identity 9 (map (λ r. (32, r)) device_requests) driver)
serve_all-on_device_example =
    serve_all-on_device whole 0 identity identity 32 700 device_requests driver
      (refl, (refl, (refl, (refl, tt)))) device-LeadsTo

-- The format of the second input stream, in the global scope.
abbrev format_asked : Address
format_asked = record { selector = virtual_format; scope = global; element = 0 }

sa_get_property_data_fits_example :
    let r = sa_get_property_data whole identity identity 9 34 (some format_asked) 8 40 6 5 driver in
    (reply_size r.0 ≡ success 40) × (r.1 ≡ driver)
unfolding sa_get_property_data_size get_stream_id
sa_get_property_data_fits_example =
    sa_get_property_data_fits whole identity identity 34 5 6 8 40 format_asked driver driver-IsValid
      (can_refer 34) (λ e. ground arith) (λ e. ground arith) (omega arith) (λ o e. refl) refl

abbrev all_released : Contents ℕ
all_released = record contents { reference_count = 0 }

release_underflows_example :
    let (left, c') = sa_release 9 all_released in
    (left ≡ uint32_max)
    × (sa_add_ref 9 c' ≡ (0, c'))
    × (sa_release 9 c' ≡ (0, c'))
    × (sa_query_interface 9 driver_interface 4 c' ≡ (fails no_interface, c'))
release_underflows_example =
    release_underflows 4 driver_interface all_released refl (inr refl) (λ e. ground arith)

abbrev opening : Opening ℕ
opening = record {
  address = 700;
  memory = device;
  creating = answers;
  attaching = answers;
  plist = none;
  region = region 0;
  kernel = kernel;
  numer = 125;
  denom = 3;
}

static_initializer_cases_example :
    let s = static_initializer whole 500 opening (initial whole contents) in
    (s.contents.is_active ≡ true)
    × ((((opened whole opening).error ≡ none) × IsUp 500 700 s)
        ⊎ (((opened whole opening).error ≢ none) × IsWithout 500 700 s))
static_initializer_cases_example =
    static_initializer_cases whole 500 opening contents (λ e. ground arith) (λ e. ground arith)
      (λ e. ground arith)

driver-IsUp : IsUp 500 700 driver
driver-IsUp = record {
  objects = refl;
  plug_in = refl;
  device_ids = refl;
  device_id = refl;
  inputs = (refl, refl);
  outputs = refl;
  device_active = refl;
}

deactivate_plug_in-IsDown_example : IsDown 500 700 (deactivate_plug_in driver)
deactivate_plug_in-IsDown_example =
    deactivate_plug_in-IsDown 500 700 driver (λ e. ground arith) (λ e. ground arith) driver-IsUp

abbrev rate_asked : Address
rate_asked = record { selector = nominal_sample_rate; scope = global; element = 0 }

abbrev rate_given : Input ℕ
rate_given = record { size = 8; as_u32 = 0; as_format = format_at 44100 }

abbrev rate : ℕ
rate = 44100

exact : Exact whole
exact v n h e = (==_iff v n).0 e

requested_rate_performed_example :
    let (answer, t') =
      sa_perform_device_configuration_change whole identity identity 9 32 125 3 rate driver in
    ((rate ≡ 44100) ⊎ (rate ≡ 48000))
    × (answer ≡ success tt)
    × ((t'.contents.device 700).sample_rate_shadow ≡ rate)
unfolding sa_set_property_data
requested_rate_performed_example =
    requested_rate_performed whole identity identity 32 32 700 125 3 44100 rate_asked rate_given
      driver driver exact device-LeadsTo device-LeadsTo refl
