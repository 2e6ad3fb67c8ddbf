-- ===== src/Workgroup.antt =====
-- daemon/workgroup.cpp: how the daemon finds the HAL device among those of Core Audio and gets its
-- workgroup, and how its thread joins it.
pub mod Finding
pub mod Joining
pub mod Scheduling
pub mod Retries
use jack_router.Common.{
  ℕ, zero, suc, ◌+◌, ◌/◌, Bool, true, false, ◌==◌, if◌then◌else◌, Option, none, some, List, [], ◌∷◌,
}
use jack_router.Common.Text.{Name, codes, same}

-- What Core Audio answers; `none` is a status that is not noErr. A UID may be NULL, and a workgroup
-- is 0 for NULL.
pub record CoreAudio : Type 0 where
  pub devices_size : Option ℕ
  pub devices : Option (List ℕ)
  pub uid : ℕ → Option (Option Name)
  pub workgroup : ℕ → Option ℕ

-- kAudioObjectUnknown
abbrev pub object_unknown : ℕ
object_unknown = 0

-- The vector of `count` IDs, zeros where nothing was written.
unfoldable pub filled_to : ℕ → List ℕ → List ℕ
filled_to zero ids = []
filled_to (suc count) [] = 0 ∷ filled_to count []
filled_to (suc count) (id ∷ ids) = id ∷ filled_to count ids

abbrev pub has_uid : Name → Option (Option Name) → Bool
has_uid want none = false
has_uid want (some none) = false
has_uid want (some (some uid)) = same uid want

-- The loop over the IDs.
unfoldable pub find_in : Name → CoreAudio → List ℕ → ℕ
find_in want c [] = object_unknown
find_in want c (id ∷ ids) =
    let rest = find_in want c ids in if has_uid want (c.uid id) then id else rest

unfoldable pub find_device_by_uid : Name → CoreAudio → ℕ
unfolding find_in filled_to
find_device_by_uid want c = elim c.devices_size [
  | none ↦ object_unknown
  | some size ↦ if size == 0 then object_unknown else elim c.devices [
    | none ↦ object_unknown
    | some ids ↦ find_in want c (filled_to (size / 4) ids)
  ]
]

-- 0 for a status that is not noErr.
abbrev workgroup_of : Option ℕ → ℕ
workgroup_of none = 0
workgroup_of (some wg) = wg

unfoldable pub workgroup_acquire_by_uid : Name → CoreAudio → ℕ
unfolding find_device_by_uid
workgroup_acquire_by_uid want c =
    let device = find_device_by_uid want c in
    if device == object_unknown then 0 else workgroup_of (c.workgroup device)
