-- ===== src/PlugIn/Balance.antt =====
-- An entry point holds a reference to its object only while it runs: what is left is a lookup of the
-- ID and a call.
use jack_router.Common.{
  ℕ, ◌<◌, ◌≡◌, ◌≢◌, refl, ap, arith, ◌==◌, if◌then◌else◌, Option, none, some, inl, inr,
  Option-cases,
}
use jack_router.Device.{bad_object}
use jack_router.Objects.{
  ObjectMap, has_id, find_first, uint64_max, copy_object_by_object_id, release_object,
}
use jack_router.Objects.Invariant.{IsValid}
use jack_router.Objects.Lookup.{owner, found_IsInfo}
use jack_router.Objects.Lifetime.{references, same_entry, release-copy}
use jack_router.PlugIn.{hardware, fails, Driver}
use jack_router.PlugIn.Methods.{Method}
use jack_router.PlugIn.Calls.{Call, invoke, with_object}

-- The object of an ID can be referred to once more.
abbrev pub CanRefer : ℕ → ObjectMap → Type 0
CanRefer id m = (o : ℕ) → owner id m.infos ≡ some o → references o m.infos < uint64_max

-- The object that an ID leads to; 0 is no ID.
abbrev pub lookup : ℕ → ObjectMap → Option ℕ
lookup id m = if id == 0 then none else owner id m.infos

module _ {Value A : Type 0} where
  -- The specification of an entry point: call what the ID leads to.
  abbrev pub on_found : Option ℕ → (ℕ → Method Value A) → Call Value A
  on_found none f s = (fails (hardware bad_object), s)
  on_found (some o) f s = invoke (f o) s

  abbrev pub call_by_id : ℕ → (ℕ → Method Value A) → Call Value A
  call_by_id id f s = on_found (lookup id s.objects) f s

module _ {Value A : Type 0} (id : ℕ) (f : ℕ → Method Value A) (s : Driver Value) where
  held_and_released :
      (o : ℕ) (m : ObjectMap)
      → o ≢ 0
      → copy_object_by_object_id id s.objects ≡ (o, m)
      → (release_object o m).1 ≡ s.objects
      → with_object id f s ≡ invoke (f o) s
  unfolding with_object
  held_and_released o m ne copied released = ground arith

  pub none_found :
      copy_object_by_object_id id s.objects ≡ (0, s.objects)
      → with_object id f s ≡ (fails (hardware bad_object), s)
  unfolding with_object
  none_found copied = ground arith

copies :
    (id : ℕ) (m : ObjectMap)
    → IsValid m
    → CanRefer id m
    → (o : ℕ) → lookup id m ≡ some o
    → (o ≢ 0) × ((copy_object_by_object_id id m).0 ≡ o)
unfolding copy_object_by_object_id
copies id m v spare o e = elim (Option-cases (find_first (has_id id) m.infos)) [
  | inl f ↦ absurd (ground arith)
  | inr (x, f) ↦
      let set = (found_IsInfo (has_id id) m.infos x v f).object_set in
      let few = spare x.object (rw f refl) in
      let same = same_entry id x.object m.infos x v f refl in (ground arith, ground arith)
]

pub copies_none :
    (id : ℕ) (m : ObjectMap) → lookup id m ≡ none → copy_object_by_object_id id m ≡ (0, m)
unfolding copy_object_by_object_id
copies_none id m e = elim (Option-cases (find_first (has_id id) m.infos)) [
  | inl f ↦ ground arith
  | inr (x, f) ↦ ground arith
]

module _ {Value A : Type 0} (id : ℕ) (f : ℕ → Method Value A) (s : Driver Value) where
  -- Holding a reference around the call refines the specification: the object that the ID leads to is
  -- called, with the object map as it was before and after; an ID of nothing gives BadObject.
  pub with_object-call_by_id :
      IsValid s.objects → CanRefer id s.objects → with_object id f s ≡ call_by_id id f s
  with_object-call_by_id v spare = elim (Option-cases (lookup id s.objects)) [
    | inl e ↦ rw e (none_found id f s (copies_none id s.objects e))
    | inr (o, e) ↦
        let (ne, copied) = copies id s.objects v spare o e in
        let released = release-copy id o s.objects v ne copied in
        rw e (
          held_and_released id f s o (copy_object_by_object_id id s.objects).1 ne
            (ap (λ n. (n, (copy_object_by_object_id id s.objects).1)) copied)
            (ap (λ r. r.1) released))
  ]
