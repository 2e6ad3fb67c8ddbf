-- ===== src/Objects/Lists.antt =====
-- The updates of the list of entries, and what they keep.
use jack_router.Common.{
  ℕ, ◌≡◌, ◌≢◌, refl, arith, Bool, false, some, List, [], ◌∷◌, ◌++◌, inl, inr, Bool-cases,
}
use jack_router.Objects.{
  ObjectInfo, contains, has_id, is_object, find_first, modify_first, erase_first, new_info,
}
use jack_router.Objects.Invariant.{known, Fresh, IsInfo, AreInfos}

-- An update that keeps the objects and the IDs, such as one of a count, keeps the invariant.
module _ (q : ObjectInfo → Bool) (f : ObjectInfo → ObjectInfo)
    (same_object : (x : ObjectInfo) → (f x).object ≡ x.object)
    (same_ids : (x : ObjectInfo) → (f x).ids ≡ x.ids) where
  pub known_id-modify :
      (i : ℕ) (xs : List ObjectInfo) → known (has_id i) (modify_first q f xs) ≡ known (has_id i) xs
  known_id-modify i [] = refl
  known_id-modify i (x ∷ xs) = ground (arith, known_id-modify i xs, same_ids x)

  pub known_object-modify :
      (o : ℕ) (xs : List ObjectInfo)
      → known (is_object o) (modify_first q f xs) ≡ known (is_object o) xs
  known_object-modify o [] = refl
  known_object-modify o (x ∷ xs) = ground (arith, known_object-modify o xs, same_object x)

  pub Fresh-modify :
      (is : List ℕ) (xs : List ObjectInfo) → Fresh is xs → Fresh is (modify_first q f xs)
  Fresh-modify [] xs h = tt
  Fresh-modify (i ∷ is) xs h = (rw (known_id-modify i xs) h.0, Fresh-modify is xs h.1)

  pub AreInfos-modify :
      (xs : List ObjectInfo)
      → AreInfos xs
      → ((x : ObjectInfo) → find_first q xs ≡ some x → IsInfo x → IsInfo (f x))
      → AreInfos (modify_first q f xs)
  AreInfos-modify [] v h = tt
  AreInfos-modify (x ∷ xs) v h = elim (Bool-cases (q x)) [
    | inl e ↦
        rw (e, modify_first)
          (h x (rw (e, find_first)) v.0, rw (same_object x) v.1, rw (same_ids x) v.2, v.3)
    | inr e ↦
        rw (e, modify_first)
          (
            v.0,
            rw (known_object-modify x.object xs) v.1,
            Fresh-modify x.ids xs v.2,
            AreInfos-modify xs v.3 (λ y e' i. h y (rw (e, find_first) e') i),
          )
  ]

-- Erasing an entry leaves no trace that was not there before.
pub known-erase_first :
    (p q : ObjectInfo → Bool) (xs : List ObjectInfo)
    → known p xs ≡ false
    → known p (erase_first q xs) ≡ false
known-erase_first p q [] h = refl
known-erase_first p q (x ∷ xs) h = ground (arith, known-erase_first p q xs)

Fresh-erase_first :
    (q : ObjectInfo → Bool) (is : List ℕ) (xs : List ObjectInfo)
    → Fresh is xs
    → Fresh is (erase_first q xs)
Fresh-erase_first q [] xs h = tt
Fresh-erase_first q (i ∷ is) xs h =
    (known-erase_first (has_id i) q xs h.0, Fresh-erase_first q is xs h.1)

pub AreInfos-erase_first :
    (q : ObjectInfo → Bool) (xs : List ObjectInfo) → AreInfos xs → AreInfos (erase_first q xs)
AreInfos-erase_first q [] v = tt
AreInfos-erase_first q (x ∷ xs) v = elim (Bool-cases (q x)) [
  | inl e ↦ rw (e, erase_first) v.3
  | inr e ↦
      rw (e, erase_first)
        (
          v.0,
          known-erase_first (is_object x.object) q xs v.1,
          Fresh-erase_first q x.ids xs v.2,
          AreInfos-erase_first q xs v.3,
        )
]

-- A new entry at the end.
module _ (id object : ℕ) where
  pub known-append_new :
      (p : ObjectInfo → Bool) (xs : List ObjectInfo)
      → known p xs ≡ false
      → p (new_info id object) ≡ false
      → known p (xs ++ new_info id object ∷ []) ≡ false
  known-append_new p [] h e = ground arith
  known-append_new p (x ∷ xs) h e = ground (arith, known-append_new p xs)

  Fresh-append_new :
      (is : List ℕ) (xs : List ObjectInfo)
      → Fresh is xs
      → contains is id ≡ false
      → Fresh is (xs ++ new_info id object ∷ [])
  Fresh-append_new [] xs h e = tt
  Fresh-append_new (i ∷ is) xs h e =
      (known-append_new (has_id i) xs h.0 (ground arith), Fresh-append_new is xs h.1 (ground arith))

  pub AreInfos-append_new :
      (xs : List ObjectInfo)
      → AreInfos xs
      → id ≢ 0
      → object ≢ 0
      → known (has_id id) xs ≡ false
      → known (is_object object) xs ≡ false
      → AreInfos (xs ++ new_info id object ∷ [])
  AreInfos-append_new [] v i o hi ho = (
    record {
      counted = omega arith;
      bounded = omega arith;
      named = λ e. cc;
      object_set = o;
      distinct = (refl, tt);
    },
    refl,
    (refl, tt),
    tt,
  )
  AreInfos-append_new (x ∷ xs) v i o hi ho = (
    v.0,
    known-append_new (is_object x.object) xs v.1 (ground arith),
    Fresh-append_new x.ids xs v.2 (ground arith),
    AreInfos-append_new xs v.3 i o (ground arith) (ground arith),
  )
