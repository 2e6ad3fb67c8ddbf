-- ===== src/Objects.antt =====
-- SA_ObjectMap of driver/JackBridge/Plug-In/SA_Object.cpp: from object IDs to reference-counted
-- objects. An object is its address, and 0 is NULL; the mutex makes each call one step.
pub mod Invariant
pub mod Lists
pub mod Names
pub mod Preservation
pub mod Lookup
pub mod Lifetime
use jack_router.Common.{
  ℕ, zero, suc, ◌+◌, ◌-◌, ◌^◌, Bool, true, false, ◌||◌, ◌==◌, ltb, if◌then◌else◌, u32, Option, none,
  some, List, [], ◌∷◌, ◌++◌,
}

-- `ObjectInfo`
pub record ObjectInfo : Type 0 where
  pub object : ℕ
  pub reference_count : ℕ  -- UInt64
  pub ids : List ℕ

-- The list, and the objects handed to `DestroyObject`, the latest first.
pub record ObjectMap : Type 0 where
  pub next_object_id : ℕ  -- UInt32
  pub infos : List ObjectInfo
  pub destroyed : List ℕ

abbrev pub uint64_max : ℕ
uint64_max = 2 ^ 64 - 1

abbrev pub contains : List ℕ → ℕ → Bool
contains [] i = false
contains (j ∷ js) i = j == i || contains js i

-- The two `operator==` of `ObjectInfo`.
abbrev pub has_id : ℕ → ObjectInfo → Bool
has_id id x = contains x.ids id

abbrev pub is_object : ℕ → ObjectInfo → Bool
is_object object x = x.object == object

-- `std::find`, and what is done through the iterator that it returns.
abbrev pub find_first : (ObjectInfo → Bool) → List ObjectInfo → Option ObjectInfo
find_first p [] = none
find_first p (x ∷ xs) = if p x then some x else find_first p xs

abbrev pub modify_first :
    (ObjectInfo → Bool) → (ObjectInfo → ObjectInfo) → List ObjectInfo → List ObjectInfo
modify_first p f [] = []
modify_first p f (x ∷ xs) = if p x then f x ∷ xs else x ∷ modify_first p f xs

abbrev pub erase_first : (ObjectInfo → Bool) → List ObjectInfo → List ObjectInfo
erase_first p [] = []
erase_first p (x ∷ xs) = if p x then xs else x ∷ erase_first p xs

abbrev pub erase : List ℕ → ℕ → List ℕ
erase [] i = []
erase (j ∷ js) i = if j == i then js else j ∷ erase js i

unfoldable pub init : ObjectMap
init = record { next_object_id = 32; infos = []; destroyed = [] }

unfoldable pub get_next_object_id : ObjectMap → ℕ × ObjectMap
get_next_object_id m = (m.next_object_id, record m { next_object_id = u32 (m.next_object_id + 1) })

abbrev pub add_id : ℕ → ObjectInfo → ObjectInfo
add_id id x = record x { ids = x.ids ++ id ∷ [] }

abbrev pub new_info : ℕ → ℕ → ObjectInfo
new_info id object = record { object = object; reference_count = 1; ids = id ∷ [] }

-- `_MapObject`
attach : ℕ → ℕ → ObjectMap → ObjectMap
attach id object m = elim (find_first (is_object object) m.infos) [
  | some x ↦ record m { infos = modify_first (is_object object) (add_id id) m.infos }
  | none ↦ record m { infos = m.infos ++ new_info id object ∷ [] }
]

unfoldable pub map_object : ℕ → ℕ → ObjectMap → Bool × ObjectMap
unfolding attach
map_object id object m =
    if id == 0 || object == 0 then (false, m) else elim (find_first (has_id id) m.infos) [
      | none ↦ (true, attach id object m)
      | some x ↦ (false, m)
    ]

abbrev pub drop_id : ℕ → ObjectInfo → ObjectInfo
drop_id id x = record x { ids = erase x.ids id }

abbrev pub destroy : ℕ → ObjectMap → ObjectMap
destroy object m = record m { destroyed = object ∷ m.destroyed }

-- `_UnmapObject`, once the entry `x` is found: erase the ID, and the entry when that was the last.
detach : ℕ → ℕ → List ℕ → ObjectMap → ObjectMap
detach id object [] m = destroy object (record m { infos = erase_first (has_id id) m.infos })
detach id object (i ∷ is) m = record m { infos = modify_first (has_id id) (drop_id id) m.infos }

unfoldable pub unmap_object : ℕ → ℕ → ObjectMap → ObjectMap
unfolding detach
unmap_object id object m =
    if id == 0 || object == 0 then m else elim (find_first (has_id id) m.infos) [
      | none ↦ m
      | some x ↦ if x.object == object then detach id object (erase x.ids id) m else m
    ]

abbrev pub more : ObjectInfo → ObjectInfo
more x = record x { reference_count = x.reference_count + 1 }

abbrev pub fewer : ObjectInfo → ObjectInfo
fewer x = record x { reference_count = x.reference_count - 1 }

-- The object, or 0 for NULL.
unfoldable pub copy_object_by_object_id : ℕ → ObjectMap → ℕ × ObjectMap
copy_object_by_object_id id m = if id == 0 then (0, m) else elim (find_first (has_id id) m.infos) [
  | none ↦ (0, m)
  | some x ↦
      if ltb x.reference_count uint64_max
      then (x.object, record m { infos = modify_first (has_id id) more m.infos })
      else (0, m)
]

unfoldable pub retain_object : ℕ → ObjectMap → ℕ × ObjectMap
retain_object object m =
    if object == 0 then (0, m) else elim (find_first (is_object object) m.infos) [
      | none ↦ (0, m)
      | some x ↦
          if ltb x.reference_count uint64_max
          then (
            x.reference_count + 1,
            record m { infos = modify_first (is_object object) more m.infos },
          )
          else (x.reference_count, m)
    ]

-- The answer is `none` where the source reads the count through the iterator that it has just erased.
unfoldable pub release_object : ℕ → ObjectMap → Option ℕ × ObjectMap
release_object object m =
    if object == 0 then (some 0, m) else elim (find_first (is_object object) m.infos) [
      | none ↦ (some 0, m)
      | some x ↦
          if x.reference_count == 0
          then (some 0, m)
          else if x.reference_count == 1
          then (none, destroy object (record m { infos = erase_first (is_object object) m.infos }))
          else (
            some (x.reference_count - 1),
            record m { infos = modify_first (is_object object) fewer m.infos },
          )
    ]

pub data Call : Type 0 where
  next_id : Call
  maps unmaps : ℕ → ℕ → Call
  copies retains releases : ℕ → Call

pub step : ObjectMap → Call → ObjectMap
step m next_id = (get_next_object_id m).1
step m (maps id object) = (map_object id object m).1
step m (unmaps id object) = unmap_object id object m
step m (copies id) = (copy_object_by_object_id id m).1
step m (retains object) = (retain_object object m).1
step m (releases object) = (release_object object m).1

pub run : ObjectMap → List Call → ObjectMap
run m [] = m
run m (c ∷ cs) = run (step m c) cs
