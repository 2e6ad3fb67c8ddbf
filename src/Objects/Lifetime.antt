-- ===== src/Objects/Lifetime.antt =====
-- Reference counts, and when an object is destroyed.
use jack_router.Common.{
  ℕ, ◌-◌, ◌<◌, ◌≡◌, ◌≢◌, refl, arith, Bool, true, false, ◌==◌, Option, none, some, List, [], ◌∷◌,
  ◌⊎◌, inl, inr, Bool-cases, Option-cases,
}
use jack_router.Objects.{
  ObjectInfo, ObjectMap, has_id, is_object, find_first, modify_first, erase_first, more, fewer,
  destroy, unmap_object, copy_object_by_object_id, release_object,
}
use jack_router.Objects.Invariant.{known, AreInfos, IsValid}
use jack_router.Objects.Preservation.{known_of_find_none}
use jack_router.Objects.Lookup.{find_none_of_known, found_IsInfo}

abbrev pub count_of : Option ObjectInfo → ℕ
count_of none = 0
count_of (some x) = x.reference_count

-- The reference count of an object; 0 if it is not listed.
abbrev pub references : ℕ → List ObjectInfo → ℕ
references object xs = count_of (find_first (is_object object) xs)

pub listed :
    (p : ObjectInfo → Bool) (xs : List ObjectInfo) (x : ObjectInfo) (o : ℕ)
    → find_first p xs ≡ some x
    → x.object ≡ o
    → known (is_object o) xs ≡ true
listed p [] x o e k = cc
listed p (y ∷ xs) x o e k = ground (arith, listed p xs x o)

fewer-more_info : (x : ObjectInfo) → fewer (more x) ≡ x
fewer-more_info x = ground arith

-- One reference more through an ID, then one less through the object, is nothing at all.
fewer-more :
    (id o : ℕ) (xs : List ObjectInfo) (x : ObjectInfo)
    → AreInfos xs
    → find_first (has_id id) xs ≡ some x
    → x.object ≡ o
    → modify_first (is_object o) fewer (modify_first (has_id id) more xs) ≡ xs
fewer-more id o [] x v e k = refl
fewer-more id o (y ∷ xs) x v e k =
    ground (arith, fewer-more_info y, fewer-more id o xs x, listed (has_id id) xs x o)

references-more :
    (id o : ℕ) (xs : List ObjectInfo) (x : ObjectInfo)
    → AreInfos xs
    → find_first (has_id id) xs ≡ some x
    → x.object ≡ o
    → find_first (is_object o) (modify_first (has_id id) more xs) ≡ some (more x)
references-more id o [] x v e k = cc
references-more id o (y ∷ xs) x v e k =
    ground (arith, references-more id o xs x, listed (has_id id) xs x o)

pub same_entry :
    (id o : ℕ) (xs : List ObjectInfo) (x : ObjectInfo)
    → AreInfos xs
    → find_first (has_id id) xs ≡ some x
    → x.object ≡ o
    → find_first (is_object o) xs ≡ some x
same_entry id o [] x v e k = cc
same_entry id o (y ∷ xs) x v e k = ground (arith, same_entry id o xs x, listed (has_id id) xs x o)

-- What a copy that gave out an object has done.
copied :
    (id object : ℕ) (m : ObjectMap)
    → object ≢ 0
    → (copy_object_by_object_id id m).0 ≡ object
    → (x : ObjectInfo) × (find_first (has_id id) m.infos ≡ some x)
      × (x.object ≡ object)
      × ((copy_object_by_object_id id m).1
          ≡ record m { infos = modify_first (has_id id) more m.infos })
unfolding copy_object_by_object_id
copied id object m ne e = elim (Option-cases (find_first (has_id id) m.infos)) [
  | inl f ↦ absurd (ground arith)
  | inr (x, f) ↦ (x, f, ground arith, ground arith)
]

release_again :
    (object : ℕ) (m : ObjectMap) (x : ObjectInfo) (xs : List ObjectInfo)
    → object ≢ 0
    → 0 < x.reference_count
    → find_first (is_object object) xs ≡ some (more x)
    → modify_first (is_object object) fewer xs ≡ m.infos
    → release_object object (record m { infos = xs }) ≡ (some x.reference_count, m)
unfolding release_object
release_again object m x xs ne pos f e = ground arith

-- A reference taken by ID and given back leaves the map exactly as it was, and the answer is the
-- count that the object had before.
pub release-copy :
    (id object : ℕ) (m : ObjectMap)
    → IsValid m
    → object ≢ 0
    → (copy_object_by_object_id id m).0 ≡ object
    → release_object object (copy_object_by_object_id id m).1
      ≡ (some (references object m.infos), m)
release-copy id object m v ne e =
    let (x, f, k, q) = copied id object m ne e in
    rw (q, same_entry id object m.infos x v f k)
      (release_again object m x (modify_first (has_id id) more m.infos) ne
        (found_IsInfo (has_id id) m.infos x v f).counted (references-more id object m.infos x v f k)
        (fewer-more id object m.infos x v f k))

known-erase_object :
    (o : ℕ) (xs : List ObjectInfo)
    → AreInfos xs
    → known (is_object o) (erase_first (is_object o) xs) ≡ false
known-erase_object o [] v = refl
known-erase_object o (x ∷ xs) v = ground (arith, known-erase_object o xs)

references-fewer :
    (o : ℕ) (xs : List ObjectInfo)
    → references o (modify_first (is_object o) fewer xs) ≡ references o xs - 1
references-fewer o [] = omega arith
references-fewer o (x ∷ xs) = ground (arith, references-fewer o xs)

-- Giving back a reference: with one left, the object is destroyed and no longer listed; with more,
-- there is one less and nothing is destroyed; an object that is not listed changes nothing. Only the
-- first of these reads the count through the erased entry.
pub release_object_cases :
    (object : ℕ) (m : ObjectMap)
    → IsValid m
    → object ≢ 0
    → let (answer, m') = release_object object m in
      ((references object m.infos ≡ 1)
        × (answer ≡ none)
        × (m'.destroyed ≡ object ∷ m.destroyed)
        × (known (is_object object) m'.infos ≡ false))
      ⊎ ((1 < references object m.infos)
          × (answer ≡ some (references object m.infos - 1))
          × (m'.destroyed ≡ m.destroyed)
          × (references object m'.infos ≡ references object m.infos - 1))
      ⊎ ((known (is_object object) m.infos ≡ false) × (answer ≡ some 0) × (m' ≡ m))
unfolding release_object
release_object_cases object m v ne = elim (Option-cases (find_first (is_object object) m.infos)) [
  | inl f ↦ inr (inr (known_of_find_none (is_object object) m.infos f, ground arith, ground arith))
  | inr (x, f) ↦ elim (Bool-cases (x.reference_count == 1)) [
    | inl one ↦ inl (
      ground arith,
      ground arith,
      ground arith,
      ground (arith, known-erase_object object m.infos v),
    )
    | inr many ↦
        let pos = (found_IsInfo (is_object object) m.infos x v f).counted in
        inr (
          inl (
            ground arith,
            ground arith,
            ground arith,
            ground (arith, references-fewer object m.infos),
          ))
  ]
]

known-erase_id :
    (id : ℕ) (x : ObjectInfo) (xs : List ObjectInfo)
    → AreInfos xs
    → find_first (has_id id) xs ≡ some x
    → known (is_object x.object) (erase_first (has_id id) xs) ≡ false
known-erase_id id x [] v e = cc
known-erase_id id x (y ∷ xs) v e =
    ground (arith, known-erase_id id x xs v.3, listed (has_id id) xs x x.object)

unmapped :
    (id : ℕ) (m : ObjectMap) (x : ObjectInfo)
    → id ≢ 0
    → x.object ≢ 0
    → find_first (has_id id) m.infos ≡ some x
    → x.ids ≡ id ∷ []
    → unmap_object id x.object m
      ≡ destroy x.object (record m { infos = erase_first (has_id id) m.infos })
unfolding unmap_object
unmapped id m x ne nz f only = ground arith

-- `UnmapObject` of an object's only ID destroys the object whatever its reference count: a holder
-- that releases it afterwards finds nothing to release.
pub unmap_destroys_referenced :
    (id : ℕ) (m : ObjectMap) (x : ObjectInfo)
    → IsValid m
    → id ≢ 0
    → find_first (has_id id) m.infos ≡ some x
    → x.ids ≡ id ∷ []
    → let m' = unmap_object id x.object m in
      (m'.destroyed ≡ x.object ∷ m.destroyed)
      × (known (is_object x.object) m'.infos ≡ false)
      × (release_object x.object m' ≡ (some 0, m'))
unfolding unmap_object release_object
unmap_destroys_referenced id m x v ne f only =
    let nonzero = (found_IsInfo (has_id id) m.infos x v f).object_set in
    let gone = known-erase_id id x m.infos v f in
    let absent = find_none_of_known (is_object x.object) (erase_first (has_id id) m.infos) gone in
    rw (unmapped id m x ne nonzero f only) (refl, gone, ground arith)
