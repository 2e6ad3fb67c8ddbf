-- ===== src/Objects/Preservation.antt =====
-- Every call on the object map keeps the invariant.
use jack_router.Common.{
  ℕ, ◌≡◌, ◌≢◌, refl, arith, Bool, true, false, ◌||◌, ◌==◌, ltb, none, some, List, [], ◌∷◌, inl, inr,
  Bool-cases, Option-cases,
}
use jack_router.Objects.{
  ObjectInfo, ObjectMap, Call, next_id, maps, unmaps, copies, retains, releases, uint64_max, has_id,
  is_object, find_first, erase, more, fewer, init, attach, map_object, detach, unmap_object,
  copy_object_by_object_id, retain_object, release_object, get_next_object_id, step, run,
}
use jack_router.Objects.Invariant.{known, IsInfo, IsValid}
use jack_router.Objects.Lists.{AreInfos-modify, AreInfos-erase_first, AreInfos-append_new}
use jack_router.Objects.Names.{AreInfos-add_id, AreInfos-drop_id}

pub known_of_find_none :
    (p : ObjectInfo → Bool) (xs : List ObjectInfo) → find_first p xs ≡ none → known p xs ≡ false
known_of_find_none p [] h = refl
known_of_find_none p (x ∷ xs) h = ground (arith, known_of_find_none p xs)

-- The counts that the two updates leave.
more-IsInfo :
    (x : ObjectInfo) → ltb x.reference_count uint64_max ≡ true → IsInfo x → IsInfo (more x)
more-IsInfo x h v = record {
  counted = omega arith;
  bounded = ground arith;
  named = v.named;
  object_set = v.object_set;
  distinct = v.distinct;
}

fewer-IsInfo :
    (x : ObjectInfo)
    → x.reference_count == 0 ≡ false
    → x.reference_count == 1 ≡ false
    → IsInfo x
    → IsInfo (fewer x)
fewer-IsInfo x h k v = record {
  counted = ground arith;
  bounded = omega (arith, v.bounded);
  named = v.named;
  object_set = v.object_set;
  distinct = v.distinct;
}

more_found :
    (p : ObjectInfo → Bool) (xs : List ObjectInfo) (x : ObjectInfo)
    → find_first p xs ≡ some x
    → ltb x.reference_count uint64_max ≡ true
    → (y : ObjectInfo) → find_first p xs ≡ some y
    → IsInfo y
    → IsInfo (more y)
more_found p xs x e h y e' v = more-IsInfo y (ground arith) v

fewer_found :
    (p : ObjectInfo → Bool) (xs : List ObjectInfo) (x : ObjectInfo)
    → find_first p xs ≡ some x
    → x.reference_count == 0 ≡ false
    → x.reference_count == 1 ≡ false
    → (y : ObjectInfo) → find_first p xs ≡ some y
    → IsInfo y
    → IsInfo (fewer y)
fewer_found p xs x e h k y e' v = fewer-IsInfo y (ground arith) (ground arith) v

attach-IsValid :
    (id object : ℕ) (m : ObjectMap)
    → IsValid m
    → id ≢ 0
    → object ≢ 0
    → find_first (has_id id) m.infos ≡ none
    → IsValid (attach id object m)
unfolding attach
attach-IsValid id object m v hi ho free =
    elim (Option-cases (find_first (is_object object) m.infos)) [
      | inl e ↦
          rw (e, attach)
            (AreInfos-append_new id object m.infos v hi ho
              (known_of_find_none (has_id id) m.infos free)
              (known_of_find_none (is_object object) m.infos e))
      | inr (x, e) ↦
          rw (e, attach)
            (AreInfos-add_id (is_object object) id m.infos v
              (known_of_find_none (has_id id) m.infos free))
    ]

map_object-IsValid :
    (id object : ℕ) (m : ObjectMap) → IsValid m → IsValid (map_object id object m).1
unfolding map_object
map_object-IsValid id object m v = elim (Bool-cases (id == 0 || object == 0)) [
  | inl e ↦ rw (e, map_object) v
  | inr e ↦ elim (Option-cases (find_first (has_id id) m.infos)) [
    | inl f ↦ rw (e, f, map_object) (attach-IsValid id object m v (ground arith) (ground arith) f)
    | inr (x, f) ↦ rw (e, f, map_object) v
  ]
]

detach-IsValid :
    (id object : ℕ) (is : List ℕ) (x : ObjectInfo) (m : ObjectMap)
    → IsValid m
    → find_first (has_id id) m.infos ≡ some x
    → erase x.ids id ≡ is
    → IsValid (detach id object is m)
unfolding detach
detach-IsValid id object [] x m v f e = AreInfos-erase_first (has_id id) m.infos v
detach-IsValid id object (i ∷ is) x m v f e =
    AreInfos-drop_id (has_id id) id m.infos v (λ y f'. found y f')
  where
    found : (y : ObjectInfo) → find_first (has_id id) m.infos ≡ some y → erase y.ids id ≢ []
    found y f' n = ground arith

unmap_object-IsValid :
    (id object : ℕ) (m : ObjectMap) → IsValid m → IsValid (unmap_object id object m)
unfolding unmap_object
unmap_object-IsValid id object m v = elim (Bool-cases (id == 0 || object == 0)) [
  | inl e ↦ rw (e, unmap_object) v
  | inr e ↦ elim (Option-cases (find_first (has_id id) m.infos)) [
    | inl f ↦ rw (e, f, unmap_object) v
    | inr (x, f) ↦ elim (Bool-cases (x.object == object)) [
      | inl o ↦ rw (e, f, o, unmap_object) (detach-IsValid id object (erase x.ids id) x m v f refl)
      | inr o ↦ rw (e, f, o, unmap_object) v
    ]
  ]
]

copy-IsValid : (id : ℕ) (m : ObjectMap) → IsValid m → IsValid (copy_object_by_object_id id m).1
unfolding copy_object_by_object_id
copy-IsValid id m v = elim (Bool-cases (id == 0)) [
  | inl e ↦ rw (e, copy_object_by_object_id) v
  | inr e ↦ elim (Option-cases (find_first (has_id id) m.infos)) [
    | inl f ↦ rw (e, f, copy_object_by_object_id) v
    | inr (x, f) ↦ elim (Bool-cases (ltb x.reference_count uint64_max)) [
      | inl o ↦
          rw (e, f, o, copy_object_by_object_id)
            (AreInfos-modify (has_id id) more (λ _. refl) (λ _. refl) m.infos v
              (more_found (has_id id) m.infos x f o))
      | inr o ↦ rw (e, f, o, copy_object_by_object_id) v
    ]
  ]
]

retain_object-IsValid :
    (object : ℕ) (m : ObjectMap) → IsValid m → IsValid (retain_object object m).1
unfolding retain_object
retain_object-IsValid object m v = elim (Bool-cases (object == 0)) [
  | inl e ↦ rw (e, retain_object) v
  | inr e ↦ elim (Option-cases (find_first (is_object object) m.infos)) [
    | inl f ↦ rw (e, f, retain_object) v
    | inr (x, f) ↦ elim (Bool-cases (ltb x.reference_count uint64_max)) [
      | inl o ↦
          rw (e, f, o, retain_object)
            (AreInfos-modify (is_object object) more (λ _. refl) (λ _. refl) m.infos v
              (more_found (is_object object) m.infos x f o))
      | inr o ↦ rw (e, f, o, retain_object) v
    ]
  ]
]

release_object-IsValid :
    (object : ℕ) (m : ObjectMap) → IsValid m → IsValid (release_object object m).1
unfolding release_object
release_object-IsValid object m v = elim (Bool-cases (object == 0)) [
  | inl e ↦ rw (e, release_object) v
  | inr e ↦ elim (Option-cases (find_first (is_object object) m.infos)) [
    | inl f ↦ rw (e, f, release_object) v
    | inr (x, f) ↦ elim (Bool-cases (x.reference_count == 0)) [
      | inl z ↦ rw (e, f, z, release_object) v
      | inr z ↦ elim (Bool-cases (x.reference_count == 1)) [
        | inl o ↦
            rw (e, f, z, o, release_object) (AreInfos-erase_first (is_object object) m.infos v)
        | inr o ↦
            rw (e, f, z, o, release_object)
              (AreInfos-modify (is_object object) fewer (λ _. refl) (λ _. refl) m.infos v
                (fewer_found (is_object object) m.infos x f z o))
      ]
    ]
  ]
]

pub step-IsValid : (m : ObjectMap) (c : Call) → IsValid m → IsValid (step m c)
unfolding step get_next_object_id
step-IsValid m next_id v = v
step-IsValid m (maps id object) v = map_object-IsValid id object m v
step-IsValid m (unmaps id object) v = unmap_object-IsValid id object m v
step-IsValid m (copies id) v = copy-IsValid id m v
step-IsValid m (retains object) v = retain_object-IsValid object m v
step-IsValid m (releases object) v = release_object-IsValid object m v

run-IsValid : (m : ObjectMap) (cs : List Call) → IsValid m → IsValid (run m cs)
unfolding run
run-IsValid m [] v = v
run-IsValid m (c ∷ cs) v = run-IsValid (step m c) cs (step-IsValid m c v)

-- After any sequence of calls on a new map, no ID is attached twice, no object is listed twice, and
-- every listed object has an ID and a reference count between 1 and the maximum.
pub run-init-IsValid : (cs : List Call) → IsValid (run init cs)
unfolding init
run-init-IsValid cs = run-IsValid init cs tt
