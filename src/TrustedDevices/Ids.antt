-- ===== src/TrustedDevices/Ids.antt =====
-- src/trusted_device_store.cpp: `contains_device_id`, `add_device_id` and `remove_device_id`.
use stmanager.Prelude.{
  Text, Bool, false, text_eq, List, [], ◌∷◌, ◌++◌, ◌||◌, ◌&&◌, not, if◌then◌else◌, ◌≡◌, refl, arith,
  text_eq_iff, Bool-cases, inl, inr,
}

-- `std::find` up to the end.
unfoldable pub contains_device_id : List Text → Text → Bool
contains_device_id [] device_id = false
contains_device_id (id ∷ ids) device_id = text_eq id device_id || contains_device_id ids device_id

unfoldable pub add_device_id : List Text → Text → List Text
add_device_id ids device_id =
    if contains_device_id ids device_id then ids else ids ++ device_id ∷ []

-- `std::remove` and `erase`: the order of the others stays.
unfoldable pub remove_device_id : List Text → Text → List Text
remove_device_id [] device_id = []
remove_device_id (id ∷ ids) device_id =
    let rest = remove_device_id ids device_id in if text_eq id device_id then rest else id ∷ rest

contains-append :
    (ids : List Text) (x j : Text)
    → contains_device_id (ids ++ x ∷ []) j ≡ (contains_device_id ids j || text_eq x j)
unfolding contains_device_id
contains-append [] x j = ground arith
contains-append (id ∷ ids) x j = ground (arith, contains-append ids x j)

-- After `add_device_id` the list contains the device and what it contained before.
pub contains-add :
    (ids : List Text) (x j : Text)
    → contains_device_id (add_device_id ids x) j ≡ (contains_device_id ids j || text_eq x j)
unfolding add_device_id
contains-add ids x j = ground (arith, contains-append ids x j, text_eq_iff x j)

-- After `remove_device_id` the list contains what it contained before, but for the device.
pub contains-remove :
    (ids : List Text) (x j : Text)
    → contains_device_id (remove_device_id ids x) j
      ≡ (contains_device_id ids j && not (text_eq x j))
unfolding remove_device_id contains_device_id
contains-remove [] x j = refl
contains-remove (id ∷ ids) x j =
    ground (arith, contains-remove ids x j, text_eq_iff id x, text_eq_iff id j, text_eq_iff x j)

-- No device is listed twice.
abbrev pub IsDistinct : List Text → Type 0
IsDistinct [] = Unit
IsDistinct (id ∷ ids) = (contains_device_id ids id ≡ false) × IsDistinct ids

append-IsDistinct :
    (ids : List Text) (x : Text)
    → IsDistinct ids
    → contains_device_id ids x ≡ false
    → IsDistinct (ids ++ x ∷ [])
unfolding contains_device_id
append-IsDistinct [] x u h = (refl, tt)
append-IsDistinct (id ∷ ids) x u h = (
  ground (arith, contains-append ids x id, text_eq_iff x id, text_eq_iff id x, u.0),
  append-IsDistinct ids x u.1 (ground arith),
)

-- `add_device_id` keeps a list in which no device is listed twice such a list.
pub add_device_id-IsDistinct :
    (ids : List Text) (x : Text) → IsDistinct ids → IsDistinct (add_device_id ids x)
unfolding add_device_id
add_device_id-IsDistinct ids x u = elim (Bool-cases (contains_device_id ids x)) [
  | inl e ↦ rw e u
  | inr e ↦ rw e (append-IsDistinct ids x u e)
]
