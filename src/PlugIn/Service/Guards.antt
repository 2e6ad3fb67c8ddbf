-- ===== src/PlugIn/Service/Guards.antt =====
-- What a call by an ID gives where its guards refuse it, or the ID leads to nothing.
use jack_router.Common.{
  ◌&&◌, inl, inr, Option-cases, if◌then◌else◌, ℕ, ◌≡◌, Bool, true, false, not, ◌==◌, Option, none,
  some, arith,
}
use jack_router.Device.{Error, bad_object, illegal_operation}
use jack_router.PlugIn.{Driver, hardware, fails}
use jack_router.PlugIn.Methods.{Method}
use jack_router.PlugIn.Calls.{
  Call, ◌>>◌, throw_if_null, throw_if_other, with_object, with_device, as_device,
}
use jack_router.PlugIn.Balance.{none_found, copies_none, lookup}

-- Whether the address, the cycle info and the output pointers are there.
abbrev pub is_given : {A : Type 0} → Option A → Bool
is_given none = false
is_given (some a) = true

abbrev pub is_found : {Value : Type 0} → ℕ → Driver Value → Bool
is_found id s = is_given (lookup id s.objects)

-- An argument that is missing is told before the object is looked for.
abbrev pub reason : Bool → Bool → Error
reason ours complete = if ours && not complete then illegal_operation else bad_object

module _ {Value A : Type 0} (id : ℕ) (f : ℕ → Method Value A) (s : Driver Value) where
  pub refused-with_object :
      is_found id s ≡ false → with_object id f s ≡ (fails (hardware bad_object), s)
  refused-with_object h = elim (Option-cases (lookup id s.objects)) [
    | inl e ↦ none_found id f s (copies_none id s.objects e)
    | inr (o, e) ↦ absurd (ground arith)
  ]

module _ {Value A : Type 0} (id : ℕ) (f : ℕ → Method Value A) (s : Driver Value) where
  pub refused-with_device :
      is_found id s ≡ false → with_device id f s ≡ (fails (hardware bad_object), s)
  unfolding with_device
  refused-with_device h = refused-with_object id (as_device f) s h

module _ {Value A : Type 0} (m : Call Value A) (in_driver : ℕ) (found : Bool) (s : Driver Value)
    (h : found ≡ false → m s ≡ (fails (hardware bad_object), s)) where
  abbrev ours : Bool
  ours = in_driver == s.contents.reference

  pub refused-guard :
      (ours && true && found) ≡ false
      → ((do throw_if_other in_driver; m) s) ≡ (fails (hardware (reason ours true)), s)
  refused-guard n = ground arith

  pub refused-guard_1 :
      (p : ℕ)
      → (ours && not (p == 0) && found) ≡ false
      → ((do throw_if_other in_driver; throw_if_null p; m) s)
        ≡ (fails (hardware (reason ours (not (p == 0)))), s)
  refused-guard_1 p n = ground arith

  pub refused-guard_2 :
      (p q : ℕ)
      → (ours && (not (p == 0) && not (q == 0)) && found) ≡ false
      → ((do throw_if_other in_driver; throw_if_null p; throw_if_null q; m) s)
        ≡ (fails (hardware (reason ours (not (p == 0) && not (q == 0)))), s)
  refused-guard_2 p q n = ground arith

  pub refused-guard_3 :
      (p q r : ℕ)
      → (ours && (not (p == 0) && not (q == 0) && not (r == 0)) && found) ≡ false
      → ((do throw_if_other in_driver; throw_if_null p; throw_if_null q; throw_if_null r; m) s)
        ≡ (fails (hardware (reason ours (not (p == 0) && not (q == 0) && not (r == 0)))), s)
  refused-guard_3 p q r n = ground arith
