-- ===== src/Core/Device.antt =====
-- core/device.cpp: the search for the mouse, the grab and the release. What the system answers for an
-- entry of the directory is a field of it; what is asked of the system is a list of requests.
pub mod Resources
pub mod Found
use loginext.Prelude.{
  ℕ, ◌%◌, ◌^◌, Bool, true, false, not, ◌&&◌, ◌||◌, ltb, ◌==◌, if◌then◌else◌, Option, none, some, ℤ,
  negsuc, is_negative, List, [], ◌∷◌, ◌++◌, length, Bytes, codes, starts_with,
}

abbrev pub vendor_id : ℕ
vendor_id = 0x046d

abbrev pub product_ids : List ℕ
product_ids = 0xb034 ∷ 0xc548 ∷ []

abbrev pub input_dir : Bytes
input_dir = codes "/dev/input"

-- `sizeof(data)` of `PathBuf`
abbrev pub path_buf : ℕ
path_buf = 128

-- A device that libevdev opened: the object's identity, the ids it reports, and whether it has the codes
-- REL_X, REL_Y and REL_HWHEEL.
pub record Evdev : Type 0 where
  pub object : ℕ
  pub id_vendor : ℕ
  pub id_product : ℕ
  pub has_x : Bool
  pub has_y : Bool
  pub has_hwheel : Bool

-- An entry of the directory, with what `open` and `libevdev_new_from_fd` give for it.
pub record Entry : Type 0 where
  pub name : Bytes
  pub opened : ℤ
  pub device : Option Evdev

pub record DeviceHandle : Type 0 where
  pub fd : ℤ
  pub evdev : Option Evdev

-- `DeviceHandle{}`
abbrev pub no_device : DeviceHandle
no_device = record { fd = negsuc 0; evdev = none }

abbrev pub is_some {ℓ} : {A : Type ℓ} → Option A → Bool
is_some none = false
is_some (some a) = true

abbrev pub valid : DeviceHandle → Bool
valid dev = not (is_negative dev.fd) && is_some dev.evdev

-- The constructors for descriptors and objects stand for calls that succeed, but for `try_open` and
-- `try_new`.
pub data Request : Type 0 where
  opendir closedir : Request
  try_open : Bytes → Request
  try_new : Request
  open_fd close_fd : ℤ → Request
  new_evdev free_evdev : ℕ → Request
  grab ungrab : ℕ → Request

abbrev pub matches_from : ℕ → List ℕ → Bool
matches_from pid [] = false
matches_from pid (id ∷ ids) = if pid == id then true else matches_from pid ids

abbrev pub matches_product : ℕ → Bool
matches_product pid = matches_from pid product_ids

-- `PathBuf::build`: the text that is printed, if it and the NUL fit.
unfoldable pub build : Bytes → Bytes → Option Bytes
build dir name =
    let text = dir ++ codes "/" ++ name in if ltb (length text) path_buf then some text else none

-- The two tests of `find_device` on an object. The ids are cast to `uint16_t`.
unfoldable pub is_mouse : Evdev → Bool
is_mouse d =
    (d.id_vendor % 2 ^ 16 == vendor_id && matches_product (d.id_product % 2 ^ 16))
    && (d.has_x && d.has_y && d.has_hwheel)

-- The part of the loop's body behind `libevdev_new_from_fd`; the handle is there if the loop breaks.
unfoldable pub examine : ℤ → Option Evdev → Option DeviceHandle × List Request
examine fd none = (none, try_new ∷ close_fd fd ∷ [])
examine fd (some d) =
    if is_mouse d
    then (some (record { fd = fd; evdev = some d }), new_evdev d.object ∷ [])
    else (none, new_evdev d.object ∷ free_evdev d.object ∷ close_fd fd ∷ [])

-- The part behind the path.
abbrev pub open_entry : Entry → Option Bytes → Option DeviceHandle × List Request
open_entry e none = (none, [])
open_entry e (some path) =
    let (found, es) = examine e.opened e.device in
    if is_negative e.opened then (none, try_open path ∷ []) else (found, open_fd e.opened ∷ es)

unfoldable pub visit : Entry → Option DeviceHandle × List Request
visit e =
    if starts_with (codes "event") e.name then open_entry e (build input_dir e.name) else (none, [])

abbrev pub or_next :
    Option DeviceHandle × List Request → DeviceHandle × List Request → DeviceHandle × List Request
or_next (none, es) (h, fs) = (h, es ++ fs)
or_next (some h, es) rest = (h, es)

-- The loop over the directory
unfoldable pub scan : List Entry → DeviceHandle × List Request
scan [] = (no_device, [])
scan (e ∷ es) = or_next (visit e) (scan es)

-- `none` is a directory that does not open.
unfoldable pub find_device : Option (List Entry) → DeviceHandle × List Request
find_device none = (no_device, [])
find_device (some es) = let (h, rs) = scan es in (h, opendir ∷ rs ++ closedir ∷ [])

-- The argument is whether `libevdev_grab` succeeds.
unfoldable pub grab_device : DeviceHandle → Bool → List Request
grab_device dev ok = elim dev.evdev [ none ↦ [] | some d ↦ if ok then grab d.object ∷ [] else [] ]

abbrev pub free_object : Option Evdev → List Request
free_object none = []
free_object (some d) = ungrab d.object ∷ free_evdev d.object ∷ []

unfoldable pub release_device : DeviceHandle → DeviceHandle × List Request
release_device dev = (
  record { fd = if is_negative dev.fd then dev.fd else negsuc 0; evdev = none },
  free_object dev.evdev ++ (if is_negative dev.fd then [] else close_fd dev.fd ∷ []),
)
