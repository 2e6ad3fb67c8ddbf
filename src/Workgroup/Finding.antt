-- ===== src/Workgroup/Finding.antt =====
-- The workgroup is that of a device with the UID.
use jack_router.Common.{
  ℕ, ◌≡◌, ◌≢◌, refl, ap, ◌∙◌, arith, inl, inr, true, ◌==◌, Bool-cases, Option-cases, ◌/◌, Option,
  none, some, List, [], ◌∷◌,
}
use jack_router.Common.Text.{Name, same}
use jack_router.Wiring.Names.{same_eq}
use jack_router.Workgroup.{
  CoreAudio, has_uid, find_in, find_device_by_uid, workgroup_acquire_by_uid, filled_to,
}

has_it :
    (want : Name) (o : Option (Option Name))
    → has_uid want o ≡ true
    → (u : Name) × (o ≡ some (some u)) × (same u want ≡ true)
has_it want none h = cc
has_it want (some none) h = cc
has_it want (some (some u)) h = (u, refl, h)

found_in :
    (want : Name) (c : CoreAudio) (ids : List ℕ)
    → find_in want c ids ≢ 0
    → has_uid want (c.uid (find_in want c ids)) ≡ true
unfolding find_in
found_in want c [] h = absurd (h refl)
found_in want c (id ∷ ids) h = ground (arith, found_in want c ids)

found_device :
    (want : Name) (c : CoreAudio)
    → find_device_by_uid want c ≢ 0
    → has_uid want (c.uid (find_device_by_uid want c)) ≡ true
unfolding find_device_by_uid
found_device want c h = elim (Option-cases c.devices_size) [
  | inl e ↦ absurd (h (rw e refl))
  | inr (size, e) ↦ elim (Bool-cases (size == 0)) [
    | inl z ↦ absurd (h (rw (e, z) refl))
    | inr z ↦ elim (Option-cases c.devices) [
      | inl f ↦ absurd (h (rw (e, z, f) refl))
      | inr (ids, f) ↦
          rw (e, z, f) (found_in want c (filled_to (size / 4) ids) (λ n. h (rw (e, z, f) n)))
    ]
  ]
]

acquired_device :
    (want : Name) (c : CoreAudio)
    → workgroup_acquire_by_uid want c ≢ 0
    → let d = find_device_by_uid want c in
      (d ≢ 0) × (c.workgroup d ≡ some (workgroup_acquire_by_uid want c))
unfolding workgroup_acquire_by_uid
acquired_device want c h = elim (Bool-cases (find_device_by_uid want c == 0)) [
  | inl e ↦ absurd (h (rw e refl))
  | inr e ↦ elim (Option-cases (c.workgroup (find_device_by_uid want c))) [
    | inl f ↦ absurd (h (rw (e, f) refl))
    | inr (wg, f) ↦ (ground arith, ground arith)
  ]
]

-- A workgroup that is acquired is the one that Core Audio gives for a device whose UID is the one
-- wanted.
pub workgroup_acquire_by_uid_lem :
    (want : Name) (c : CoreAudio)
    → workgroup_acquire_by_uid want c ≢ 0
    → (device : ℕ) × (device ≢ 0)
      × (c.uid device ≡ some (some want))
      × (c.workgroup device ≡ some (workgroup_acquire_by_uid want c))
workgroup_acquire_by_uid_lem want c h =
    let (ne, wg) = acquired_device want c h in
    let (uid, is, equal) =
      has_it want (c.uid (find_device_by_uid want c)) (found_device want c ne) in
    (find_device_by_uid want c, ne, is ∙ ap (λ u. some (some u)) (same_eq uid want equal), wg)
