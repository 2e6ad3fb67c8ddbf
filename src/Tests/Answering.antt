-- ===== src/Tests/Answering.antt =====
-- The properties of the device and its streams, at concrete inputs.
use jack_router.Common.{ℕ, ◌≤◌, refl}
use jack_router.Properties.{Selector, streams, Scope, input, Address}
use jack_router.Properties.Base.{Identity}
use jack_router.Properties.Dispatch.{get_property_data}
use jack_router.Properties.Queries.{get_property_data_bounded}
use jack_router.Tests.Data.{whole, device}

abbrev address : Selector → Scope → ℕ → Address
address s scope e = record { selector = s; scope = scope; element = e }

abbrev identity : Identity
identity = record { class_id = 2; base_class_id = 1; owner_id = 1 }

get_property_data_bounded_example : 4 ≤ 6
unfolding get_property_data
get_property_data_bounded_example =
    get_property_data_bounded whole identity device 32 (address streams input 0) 6 4 refl
