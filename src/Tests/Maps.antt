-- ===== src/Tests/Maps.antt =====
-- The object map, at concrete inputs.
use jack_router.Common.{◌<◌, ◌≡◌, ◌⊎◌, refl, arith, some, none, true, false, List, [], ◌∷◌}
use jack_router.Objects.{
  ObjectInfo, ObjectMap, Call, next_id, maps, unmaps, retains, releases, init, run, map_object,
  unmap_object, release_object, is_object,
}
use jack_router.Objects.Invariant.{known, IsInfo, IsValid}
use jack_router.Objects.Preservation.{run-init-IsValid}
use jack_router.Objects.Lookup.{owner, owner-map_object}
use jack_router.Objects.Lifetime.{references, release_object_cases, unmap_destroys_referenced}

-- A device with an ID of its own and one for a stream, held twice; and another object.
abbrev script : List Call
script =
    next_id
    ∷ maps 32 700
    ∷ maps 33 700
    ∷ retains 700
    ∷ maps 34 800
    ∷ unmaps 32 700
    ∷ releases 900
    ∷ []

run-init-IsValid_example : IsValid (run init script)
run-init-IsValid_example = run-init-IsValid script

abbrev held : ObjectInfo
held = record { object = 700; reference_count = 2; ids = 33 ∷ [] }

abbrev other : ObjectInfo
other = record { object = 800; reference_count = 1; ids = 34 ∷ 35 ∷ [] }

abbrev two_objects : ObjectMap
two_objects = record { next_object_id = 36; infos = held ∷ other ∷ []; destroyed = [] }

held-IsInfo : IsInfo held
held-IsInfo = record {
  counted = omega arith;
  bounded = omega arith;
  named = λ e. ground arith;
  object_set = λ e. ground arith;
  distinct = (refl, tt);
}

other-IsInfo : IsInfo other
other-IsInfo = record {
  counted = omega arith;
  bounded = omega arith;
  named = λ e. ground arith;
  object_set = λ e. ground arith;
  distinct = (refl, (refl, tt));
}

two_objects-IsValid : IsValid two_objects
two_objects-IsValid = (held-IsInfo, refl, (refl, tt), (other-IsInfo, refl, (refl, (refl, tt)), tt))

owner-map_object_example :
    let (accepted, m') = map_object 36 700 two_objects in
    (accepted ≡ true) × (owner 36 m'.infos ≡ some 700)
unfolding map_object
owner-map_object_example = owner-map_object 36 700 36 two_objects

release_object_cases_example :
    let (answer, m') = release_object 800 two_objects in
    ((references 800 two_objects.infos ≡ 1)
      × (answer ≡ none)
      × (m'.destroyed ≡ 800 ∷ [])
      × (known (is_object 800) m'.infos ≡ false))
    ⊎ ((1 < references 800 two_objects.infos)
        × (answer ≡ some 0)
        × (m'.destroyed ≡ [])
        × (references 800 m'.infos ≡ 0))
    ⊎ ((known (is_object 800) two_objects.infos ≡ false) × (answer ≡ some 0) × (m' ≡ two_objects))
release_object_cases_example =
    release_object_cases 800 two_objects two_objects-IsValid (λ e. ground arith)

unmap_destroys_referenced_example :
    let m' = unmap_object 33 700 two_objects in
    (m'.destroyed ≡ 700 ∷ [])
    × (known (is_object 700) m'.infos ≡ false)
    × (release_object 700 m' ≡ (some 0, m'))
unmap_destroys_referenced_example =
    unmap_destroys_referenced 33 two_objects held two_objects-IsValid (λ e. ground arith) refl refl
