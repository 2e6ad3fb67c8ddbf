-- ===== src/Objects/Lookup.antt =====
-- Which object an ID leads to, after `MapObject` and `UnmapObject`.
use jack_router.Common.{
  ℕ, ◌≡◌, ◌≢◌, refl, arith, Bool, true, false, not, ◌&&◌, ◌||◌, ◌==◌, if◌then◌else◌, Option, none,
  some, List, [], ◌∷◌, ◌++◌, ◌⊎◌, inl, inr, Bool-cases, Option-cases,
}
use mathlib.Core.Path.{subst}
use jack_router.Objects.{
  ObjectInfo, ObjectMap, contains, has_id, is_object, find_first, modify_first, erase_first, erase,
  add_id, drop_id, new_info, attach, map_object, detach, unmap_object,
}
use jack_router.Objects.Invariant.{known, Distinct, Fresh, IsInfo, AreInfos, IsValid}
use jack_router.Objects.Names.{contains-append}
use jack_router.Objects.Preservation.{known_of_find_none}

abbrev pub object_of : Option ObjectInfo → Option ℕ
object_of none = none
object_of (some x) = some x.object

-- The object that an ID is attached to.
abbrev pub owner : ℕ → List ObjectInfo → Option ℕ
owner id xs = object_of (find_first (has_id id) xs)

abbrev pub not_null : ℕ → ℕ → Bool
not_null id object = not (id == 0 || object == 0)

abbrev pub is_free : Option ℕ → Bool
is_free none = true
is_free (some o) = false

pub find_none_of_known :
    (p : ObjectInfo → Bool) (xs : List ObjectInfo) → known p xs ≡ false → find_first p xs ≡ none
find_none_of_known p [] h = refl
find_none_of_known p (x ∷ xs) h = ground (arith, find_none_of_known p xs)

owner-append_new :
    (id object j : ℕ) (xs : List ObjectInfo)
    → known (has_id id) xs ≡ false
    → owner j (xs ++ new_info id object ∷ []) ≡ (if id == j then some object else owner j xs)
owner-append_new id object j [] h = ground arith
owner-append_new id object j (x ∷ xs) h = ground (arith, owner-append_new id object j xs)

owner-add_id :
    (id object j : ℕ) (xs : List ObjectInfo)
    → known (has_id id) xs ≡ false
    → known (is_object object) xs ≡ true
    → owner j (modify_first (is_object object) (add_id id) xs)
      ≡ (if id == j then some object else owner j xs)
owner-add_id id object j [] h k = cc
owner-add_id id object j (x ∷ xs) h k =
    ground (arith, owner-add_id id object j xs, contains-append x.ids id j)

known_of_find_some :
    (p : ObjectInfo → Bool) (xs : List ObjectInfo) (x : ObjectInfo)
    → find_first p xs ≡ some x
    → known p xs ≡ true
known_of_find_some p [] x h = cc
known_of_find_some p (y ∷ xs) x h = ground (arith, known_of_find_some p xs x)

owner-attach :
    (id object j : ℕ) (m : ObjectMap)
    → known (has_id id) m.infos ≡ false
    → owner j (attach id object m).infos ≡ (if id == j then some object else owner j m.infos)
unfolding attach
owner-attach id object j m h = elim (Option-cases (find_first (is_object object) m.infos)) [
  | inl e ↦ rw (e, attach) (owner-append_new id object j m.infos h)
  | inr (x, e) ↦
      rw (e, attach)
        (owner-add_id id object j m.infos h (known_of_find_some (is_object object) m.infos x e))
]

-- `MapObject` answers true exactly when neither argument is null and the ID is attached to nothing,
-- and then the ID leads to the object; no other ID leads elsewhere than before.
pub owner-map_object :
    (id object j : ℕ) (m : ObjectMap)
    → let (accepted, m') = map_object id object m in
      (accepted ≡ (not_null id object && is_free (owner id m.infos)))
      × (owner j m'.infos ≡ (if accepted && id == j then some object else owner j m.infos))
unfolding map_object
owner-map_object id object j m = elim (Bool-cases (id == 0 || object == 0)) [
  | inl e ↦ rw (e, map_object) (refl, refl)
  | inr e ↦ elim (Option-cases (find_first (has_id id) m.infos)) [
    | inl f ↦
        rw (e, f, map_object)
          (refl, owner-attach id object j m (known_of_find_none (has_id id) m.infos f))
    | inr (x, f) ↦ rw (e, f, map_object) (refl, refl)
  ]
]

contains-erase_self : (is : List ℕ) (j : ℕ) → Distinct is → contains (erase is j) j ≡ false
contains-erase_self [] j d = refl
contains-erase_self (i ∷ is) j d = ground (arith, contains-erase_self is j d.1)

contains-erase_ne :
    (is : List ℕ) (j i : ℕ) → j == i ≡ false → contains (erase is j) i ≡ contains is i
contains-erase_ne [] j i h = refl
contains-erase_ne (k ∷ is) j i h = ground (arith, contains-erase_ne is j i)

pub known_of_Fresh :
    (is : List ℕ) (xs : List ObjectInfo) (i : ℕ)
    → Fresh is xs
    → contains is i ≡ true
    → known (has_id i) xs ≡ false
known_of_Fresh [] xs i f h = cc
known_of_Fresh (k ∷ is) xs i f h = elim (Bool-cases (k == i)) [
  | inl e ↦ let p : k ≡ i = ground arith in rw p at (f.0)
  | inr e ↦ known_of_Fresh is xs i f.1 (ground arith)
]

sole_id :
    (is : List ℕ) (id j : ℕ) → erase is id ≡ [] → contains is id ≡ true → contains is j ≡ id == j
sole_id [] id j e h = cc
sole_id (k ∷ []) id j e h = ground arith
sole_id (k ∷ i ∷ is) id j e h = ground arith

owner-drop_id :
    (id j : ℕ) (xs : List ObjectInfo)
    → AreInfos xs
    → owner j (modify_first (has_id id) (drop_id id) xs) ≡ (if id == j then none else owner j xs)
owner-drop_id id j [] v = ground arith
owner-drop_id id j (x ∷ xs) v = ground (
  arith,
  owner-drop_id id j xs,
  contains-erase_self x.ids id v.0.distinct,
  contains-erase_ne x.ids id j,
  known_of_Fresh x.ids xs id v.2,
  find_none_of_known (has_id id) xs,
)

owner-erase_first :
    (id j : ℕ) (xs : List ObjectInfo) (y : ObjectInfo)
    → AreInfos xs
    → find_first (has_id id) xs ≡ some y
    → erase y.ids id ≡ []
    → owner j (erase_first (has_id id) xs) ≡ (if id == j then none else owner j xs)
owner-erase_first id j [] y v f e = cc
owner-erase_first id j (x ∷ xs) y v f e = ground (
  arith,
  owner-erase_first id j xs y,
  sole_id x.ids id j,
  known_of_Fresh x.ids xs id v.2,
  find_none_of_known (has_id id) xs,
)

owner-detach :
    (id object j : ℕ) (is : List ℕ) (x : ObjectInfo) (m : ObjectMap)
    → IsValid m
    → find_first (has_id id) m.infos ≡ some x
    → erase x.ids id ≡ is
    → owner j (detach id object is m).infos ≡ (if id == j then none else owner j m.infos)
unfolding detach
owner-detach id object j [] x m v f e = owner-erase_first id j m.infos x v f e
owner-detach id object j (i ∷ is) x m v f e = owner-drop_id id j m.infos v

pub found_IsInfo :
    (p : ObjectInfo → Bool) (xs : List ObjectInfo) (x : ObjectInfo)
    → AreInfos xs
    → find_first p xs ≡ some x
    → IsInfo x
found_IsInfo p [] x v e = cc
found_IsInfo p (y ∷ xs) x v e = elim (Bool-cases (p y)) [
  | inl h ↦ let q : y ≡ x = ground arith in subst IsInfo q v.0
  | inr h ↦ found_IsInfo p xs x v.3 (rw (h, find_first) at e)
]

-- `UnmapObject` of a pair that is attached frees that ID and no other; of any other pair it changes
-- nothing.
pub owner-unmap_object :
    (id object j : ℕ) (m : ObjectMap)
    → IsValid m
    → id ≢ 0
    → ((owner id m.infos ≡ some object)
        × (owner j (unmap_object id object m).infos ≡ (if id == j then none else owner j m.infos)))
      ⊎ ((owner id m.infos ≢ some object) × (unmap_object id object m ≡ m))
unfolding unmap_object
owner-unmap_object id object j m v ne = elim (Option-cases (find_first (has_id id) m.infos)) [
  | inl f ↦ inr (λ e. ground arith, ground arith)
  | inr (x, f) ↦ elim (Bool-cases (x.object == object)) [
    | inl o ↦ inl (
      ground arith,
      ground (
        arith,
        owner-detach id object j (erase x.ids id) x m v f refl,
        (found_IsInfo (has_id id) m.infos x v f).object_set,
      ),
    )
    | inr o ↦ inr (λ e. ground arith, ground arith)
  ]
]
