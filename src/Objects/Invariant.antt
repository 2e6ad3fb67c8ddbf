-- ===== src/Objects/Invariant.antt =====
-- What holds of every object map: no ID is attached twice, no object listed twice, and every entry
-- has an ID and a reference.
use jack_router.Common.{ℕ, ◌≤◌, ◌<◌, ◌≡◌, ◌≢◌, Bool, false, ◌||◌, List, [], ◌∷◌}
use jack_router.Objects.{ObjectInfo, ObjectMap, uint64_max, contains, has_id, is_object}

abbrev pub known : (ObjectInfo → Bool) → List ObjectInfo → Bool
known p [] = false
known p (x ∷ xs) = p x || known p xs

abbrev pub Distinct : List ℕ → Type 0
Distinct [] = Unit {0}
Distinct (i ∷ is) = (contains is i ≡ false) × Distinct is

-- None of these IDs is attached to an entry of the list.
abbrev pub Fresh : List ℕ → List ObjectInfo → Type 0
Fresh [] xs = Unit {0}
Fresh (i ∷ is) xs = (known (has_id i) xs ≡ false) × Fresh is xs

pub record IsInfo (x : ObjectInfo) : Type 0 where
  pub counted : 0 < x.reference_count
  pub bounded : x.reference_count ≤ uint64_max
  pub named : x.ids ≢ []
  pub object_set : x.object ≢ 0
  pub distinct : Distinct x.ids

abbrev pub AreInfos : List ObjectInfo → Type 0
AreInfos [] = Unit {0}
AreInfos (x ∷ xs) =
    IsInfo x × (known (is_object x.object) xs ≡ false) × Fresh x.ids xs × AreInfos xs

abbrev pub IsValid : ObjectMap → Type 0
IsValid m = AreInfos m.infos
