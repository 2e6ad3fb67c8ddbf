-- ===== src/Objects/Names.antt =====
-- The IDs of an entry, one more or one less, and what the entries keep.
use jack_router.Common.{
  ℕ, ◌≡◌, ◌≢◌, refl, arith, Bool, false, ◌||◌, ◌==◌, some, List, [], ◌∷◌, ◌++◌, inl, inr,
  Bool-cases,
}
use jack_router.Objects.{
  ObjectInfo, contains, has_id, is_object, find_first, modify_first, erase, add_id, drop_id,
}
use jack_router.Objects.Invariant.{known, Distinct, Fresh, AreInfos}

-- One more ID for an entry that is there.
pub contains-append :
    (is : List ℕ) (j i : ℕ) → contains (is ++ j ∷ []) i ≡ (contains is i || j == i)
contains-append [] j i = ground arith
contains-append (k ∷ is) j i = ground (arith, contains-append is j i)

Distinct-append :
    (is : List ℕ) (j : ℕ) → Distinct is → contains is j ≡ false → Distinct (is ++ j ∷ [])
Distinct-append [] j d h = (refl, tt)
Distinct-append (i ∷ is) j d h =
    (ground (arith, contains-append is j i), Distinct-append is j d.1 (ground arith))

append-ne-nil : (is : List ℕ) (j : ℕ) → is ++ j ∷ [] ≢ []
append-ne-nil [] j e = cc
append-ne-nil (i ∷ is) j e = cc

module _ (q : ObjectInfo → Bool) (id : ℕ) where
  known_object-add_id :
      (o : ℕ) (xs : List ObjectInfo)
      → known (is_object o) (modify_first q (add_id id) xs) ≡ known (is_object o) xs
  known_object-add_id o [] = refl
  known_object-add_id o (x ∷ xs) = ground (arith, known_object-add_id o xs)

  known_id-add_id :
      (i : ℕ) (xs : List ObjectInfo)
      → id == i ≡ false
      → known (has_id i) (modify_first q (add_id id) xs) ≡ known (has_id i) xs
  known_id-add_id i [] h = refl
  known_id-add_id i (x ∷ xs) h = ground (arith, known_id-add_id i xs, contains-append x.ids id i)

  Fresh-add_id :
      (is : List ℕ) (xs : List ObjectInfo)
      → Fresh is xs
      → contains is id ≡ false
      → Fresh is (modify_first q (add_id id) xs)
  Fresh-add_id [] xs h e = tt
  Fresh-add_id (i ∷ is) xs h e =
      (rw (known_id-add_id i xs (ground arith)) h.0, Fresh-add_id is xs h.1 (ground arith))

  Fresh-ids_append :
      (is : List ℕ) (xs : List ObjectInfo)
      → Fresh is xs
      → known (has_id id) xs ≡ false
      → Fresh (is ++ id ∷ []) xs
  Fresh-ids_append [] xs h e = (e, tt)
  Fresh-ids_append (i ∷ is) xs h e = (h.0, Fresh-ids_append is xs h.1 e)

  pub AreInfos-add_id :
      (xs : List ObjectInfo)
      → AreInfos xs
      → known (has_id id) xs ≡ false
      → AreInfos (modify_first q (add_id id) xs)
  AreInfos-add_id [] v h = tt
  AreInfos-add_id (x ∷ xs) v h = elim (Bool-cases (q x)) [
    | inl e ↦
        rw (e, modify_first)
          (
            record {
              counted = v.0.counted;
              bounded = v.0.bounded;
              named = append-ne-nil x.ids id;
              object_set = v.0.object_set;
              distinct = Distinct-append x.ids id v.0.distinct (ground arith);
            },
            v.1,
            Fresh-ids_append x.ids xs v.2 (ground arith),
            v.3,
          )
    | inr e ↦
        rw (e, modify_first)
          (
            v.0,
            rw (known_object-add_id x.object xs) v.1,
            Fresh-add_id x.ids xs v.2 (ground arith),
            AreInfos-add_id xs v.3 (ground arith),
          )
  ]

-- One ID less.
contains-erase : (is : List ℕ) (j i : ℕ) → contains is i ≡ false → contains (erase is j) i ≡ false
contains-erase [] j i h = refl
contains-erase (k ∷ is) j i h = ground (arith, contains-erase is j i)

Distinct-erase : (is : List ℕ) (j : ℕ) → Distinct is → Distinct (erase is j)
Distinct-erase [] j d = tt
Distinct-erase (i ∷ is) j d = elim (Bool-cases (i == j)) [
  | inl e ↦ rw (e, erase) d.1
  | inr e ↦ rw (e, erase) (contains-erase is j i d.0, Distinct-erase is j d.1)
]

Fresh-erase : (is : List ℕ) (j : ℕ) (xs : List ObjectInfo) → Fresh is xs → Fresh (erase is j) xs
Fresh-erase [] j xs h = tt
Fresh-erase (i ∷ is) j xs h = elim (Bool-cases (i == j)) [
  | inl e ↦ rw (e, erase) h.1
  | inr e ↦ rw (e, erase) (h.0, Fresh-erase is j xs h.1)
]

module _ (q : ObjectInfo → Bool) (id : ℕ) where
  known_object-drop_id :
      (o : ℕ) (xs : List ObjectInfo)
      → known (is_object o) (modify_first q (drop_id id) xs) ≡ known (is_object o) xs
  known_object-drop_id o [] = refl
  known_object-drop_id o (x ∷ xs) = ground (arith, known_object-drop_id o xs)

  known_id-drop_id :
      (i : ℕ) (xs : List ObjectInfo)
      → known (has_id i) xs ≡ false
      → known (has_id i) (modify_first q (drop_id id) xs) ≡ false
  known_id-drop_id i [] h = refl
  known_id-drop_id i (x ∷ xs) h = ground (arith, known_id-drop_id i xs, contains-erase x.ids id i)

  Fresh-drop_id :
      (is : List ℕ) (xs : List ObjectInfo) → Fresh is xs → Fresh is (modify_first q (drop_id id) xs)
  Fresh-drop_id [] xs h = tt
  Fresh-drop_id (i ∷ is) xs h = (known_id-drop_id i xs h.0, Fresh-drop_id is xs h.1)

  pub AreInfos-drop_id :
      (xs : List ObjectInfo)
      → AreInfos xs
      → ((x : ObjectInfo) → find_first q xs ≡ some x → erase x.ids id ≢ [])
      → AreInfos (modify_first q (drop_id id) xs)
  AreInfos-drop_id [] v h = tt
  AreInfos-drop_id (x ∷ xs) v h = elim (Bool-cases (q x)) [
    | inl e ↦
        rw (e, modify_first)
          (
            record {
              counted = v.0.counted;
              bounded = v.0.bounded;
              named = h x (rw (e, find_first));
              object_set = v.0.object_set;
              distinct = Distinct-erase x.ids id v.0.distinct;
            },
            v.1,
            Fresh-erase x.ids id xs v.2,
            v.3,
          )
    | inr e ↦
        rw (e, modify_first)
          (
            v.0,
            rw (known_object-drop_id x.object xs) v.1,
            Fresh-drop_id x.ids xs v.2,
            AreInfos-drop_id xs v.3 (λ y e'. h y (rw (e, find_first) e')),
          )
  ]
