-- ===== src/PlugIn/References.antt =====
-- The reference count of the COM interface: QueryInterface and AddRef against Release.
use jack_router.Common.{ℕ, ◌+◌, ◌<◌, ◌≡◌, ◌≢◌, ◌⊎◌, arith}
use jack_router.PlugIn.{
  Interface, unknown, driver_interface, no_interface, success, fails, Contents, uint32_max,
  sa_query_interface, sa_add_ref, sa_release,
}

module _ {Value : Type 0} where
  -- Below the last two counts a reference, taken by AddRef or by QueryInterface for either interface,
  -- can be given back: the answers are the counts, and the driver is as it was.
  pub release-add_ref :
      (out : ℕ) (i : Interface) (c : Contents Value)
      → c.reference_count + 1 < uint32_max
      → out ≢ 0
      → (i ≡ unknown) ⊎ (i ≡ driver_interface)
      → let (taken, c') = sa_add_ref c.reference c in
        (taken ≡ c.reference_count + 1)
        × (sa_release c.reference c' ≡ (c.reference_count, c))
        × (sa_query_interface c.reference i out c ≡ (success c.reference, c'))
  unfolding sa_add_ref sa_release sa_query_interface
  release-add_ref out i c below ne supported = ground arith

  -- A release too many wraps the count to the maximum, and there every call is refused for good:
  -- AddRef and Release answer 0, and QueryInterface fails, all without a change.
  pub release_underflows :
      (out : ℕ) (i : Interface) (c : Contents Value)
      → c.reference_count ≡ 0
      → (i ≡ unknown) ⊎ (i ≡ driver_interface)
      → out ≢ 0
      → let (left, c') = sa_release c.reference c in
        (left ≡ uint32_max)
        × (sa_add_ref c.reference c' ≡ (0, c'))
        × (sa_release c.reference c' ≡ (0, c'))
        × (sa_query_interface c.reference i out c' ≡ (fails no_interface, c'))
  unfolding sa_add_ref sa_release sa_query_interface
  release_underflows out i c none supported ne = ground arith
