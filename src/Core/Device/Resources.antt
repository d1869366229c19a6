-- ===== src/Core/Device/Resources.antt =====
-- What core/device.cpp holds open.
use loginext.Core.Device.{
  Evdev, Entry, DeviceHandle, is_some, Request, build, is_mouse, examine, open_entry, visit,
  or_next, scan, find_device, grab_device, release_device, opendir, closedir, try_open, try_new,
  open_fd, close_fd, new_evdev, free_evdev, grab, ungrab, input_dir,
}
use loginext.Prelude.{
  ℕ, ◌≡◌, refl, ap, sym, ◌∙◌, Bool, true, false, not, ◌==◌, if◌then◌else◌, Option, none, some, ℤ,
  eqb_ℤ, eqb_ℤ_refl, is_negative, List, [], ◌∷◌, ◌++◌, Bytes, codes, starts_with, Bool-cases, inl,
  inr, arith,
}

-- The directory stream, the descriptors, the objects, and the objects that hold a grab.
pub record Resources : Type 0 where
  pub dir : Bool
  pub fds : List ℤ
  pub evdevs : List ℕ
  pub grabs : List ℕ

abbrev pub no_resources : Resources
no_resources = record { dir = false; fds = []; evdevs = []; grabs = [] }

abbrev pub remove_fd : ℤ → List ℤ → List ℤ
remove_fd x [] = []
remove_fd x (y ∷ ys) = if eqb_ℤ x y then ys else y ∷ remove_fd x ys

abbrev pub remove_object : ℕ → List ℕ → List ℕ
remove_object x [] = []
remove_object x (y ∷ ys) = if x == y then ys else y ∷ remove_object x ys

abbrev pub apply : Request → Resources → Resources
apply opendir r = record r { dir = true }
apply closedir r = record r { dir = false }
apply (try_open path) r = r
apply try_new r = r
apply (open_fd fd) r = record r { fds = fd ∷ r.fds }
apply (close_fd fd) r = record r { fds = remove_fd fd r.fds }
apply (new_evdev d) r = record r { evdevs = d ∷ r.evdevs }
apply (free_evdev d) r = record r { evdevs = remove_object d r.evdevs }
apply (grab d) r = record r { grabs = d ∷ r.grabs }
apply (ungrab d) r = record r { grabs = remove_object d r.grabs }

abbrev pub after : List Request → Resources → Resources
after [] r = r
after (x ∷ xs) r = after xs (apply x r)

after-append : (xs ys : List Request) (r : Resources) → after (xs ++ ys) r ≡ after ys (after xs r)
after-append [] ys r = refl
after-append (x ∷ xs) ys r = after-append xs ys (apply x r)

-- The resources with those of a handle.
abbrev pub with_handle : DeviceHandle → Resources → Resources
with_handle dev r = elim dev.evdev [
  | none ↦ r
  | some d ↦ record r { fds = dev.fd ∷ r.fds; evdevs = d.object ∷ r.evdevs }
]

abbrev with_found : Option DeviceHandle → Resources → Resources
with_found none r = r
with_found (some dev) r = with_handle dev r

remove_fd_head : (x : ℤ) (xs : List ℤ) → remove_fd x (x ∷ xs) ≡ xs
remove_fd_head x xs = rw (eqb_ℤ_refl x) refl

remove_object_head : (x : ℕ) (xs : List ℕ) → remove_object x (x ∷ xs) ≡ xs
remove_object_head x xs = ground arith

closed : (fd : ℤ) (r : Resources) → apply (close_fd fd) (record r { fds = fd ∷ r.fds }) ≡ r
closed fd r = ap (λ (l : List ℤ). record r { fds = l }) (remove_fd_head fd r.fds)

freed : (d : ℕ) (r : Resources) → apply (free_evdev d) (record r { evdevs = d ∷ r.evdevs }) ≡ r
freed d r = ap (λ (l : List ℕ). record r { evdevs = l }) (remove_object_head d r.evdevs)

examine-after :
    (fd : ℤ) (d : Option Evdev) (r : Resources)
    → after (examine fd d).1 (record r { fds = fd ∷ r.fds }) ≡ with_found (examine fd d).0 r
unfolding examine
examine-after fd none r = closed fd r
examine-after fd (some d) r = elim (Bool-cases (is_mouse d)) [
  | inl e ↦ rw e refl
  | inr e ↦
      rw e (ap (apply (close_fd fd)) (freed d.object (record r { fds = fd ∷ r.fds })) ∙ closed fd r)
]

open_entry-after :
    (e : Entry) (path : Option Bytes) (r : Resources)
    → after (open_entry e path).1 r ≡ with_found (open_entry e path).0 r
open_entry-after e none r = refl
open_entry-after e (some path) r = elim (Bool-cases (is_negative e.opened)) [
  | inl n ↦ rw n refl
  | inr n ↦ rw n (examine-after e.opened e.device r)
]

visit-after : (e : Entry) (r : Resources) → after (visit e).1 r ≡ with_found (visit e).0 r
unfolding visit
visit-after e r = elim (Bool-cases (starts_with (codes "event") e.name)) [
  | inl p ↦ rw p (open_entry-after e (build input_dir e.name) r)
  | inr p ↦ rw p refl
]

or_next-after :
    (v : Option DeviceHandle × List Request) (rest : DeviceHandle × List Request) (r : Resources)
    → after v.1 r ≡ with_found v.0 r
    → after rest.1 r ≡ with_handle rest.0 r
    → after (or_next v rest).1 r ≡ with_handle (or_next v rest).0 r
or_next-after (none, es) (h, fs) r e e' = after-append es fs r ∙ ap (after fs) e ∙ e'
or_next-after (some h, es) rest r e e' = e

scan-after : (es : List Entry) (r : Resources) → after (scan es).1 r ≡ with_handle (scan es).0 r
unfolding scan
scan-after [] r = refl
scan-after (e ∷ es) r = or_next-after (visit e) (scan es) r (visit-after e r) (scan-after es r)

with_handle-dir :
    (dev : DeviceHandle) (b : Bool) (r : Resources)
    → with_handle dev (record r { dir = b }) ≡ record (with_handle dev r) { dir = b }
with_handle-dir dev b r =
    elim dev.evdev
      as (λ (o : Option Evdev).
        with_handle (record dev { evdev = o }) (record r { dir = b })
        ≡ record (with_handle (record dev { evdev = o }) r) { dir = b }) [
          | none ↦ refl
          | some d ↦ refl
        ]

-- Whatever the directory holds and whichever opens fail: after the search, exactly the descriptor and
-- the object of the handle that it returns are open, and nothing if it returns none.
pub find_device-after :
    (dir : Option (List Entry))
    → let (dev, rs) = find_device dir in after rs no_resources ≡ with_handle dev no_resources
unfolding find_device
find_device-after none = refl
find_device-after (some es) =
    after-append (scan es).1 (closedir ∷ []) _
    ∙ ap (apply closedir) (
        scan-after es (record no_resources { dir = true })
        ∙ with_handle-dir (scan es).0 true no_resources)
    ∙ sym (with_handle-dir (scan es).0 false no_resources)

-- A handle has a descriptor exactly if it has an object.
abbrev IsWhole : DeviceHandle → Type 0
IsWhole dev = is_negative dev.fd ≡ not (is_some dev.evdev)

abbrev IsWholeIf : Option DeviceHandle → Type 0
IsWholeIf none = Unit
IsWholeIf (some dev) = IsWhole dev

examine-IsWhole : (fd : ℤ) (d : Option Evdev) → is_negative fd ≡ false → IsWholeIf (examine fd d).0
unfolding examine
examine-IsWhole fd none n = tt
examine-IsWhole fd (some d) n = elim (Bool-cases (is_mouse d)) [ inl e ↦ rw e n | inr e ↦ rw e tt ]

open_entry-IsWhole : (e : Entry) (path : Option Bytes) → IsWholeIf (open_entry e path).0
open_entry-IsWhole e none = tt
open_entry-IsWhole e (some path) = elim (Bool-cases (is_negative e.opened)) [
  | inl n ↦ rw n tt
  | inr n ↦ rw n (examine-IsWhole e.opened e.device n)
]

visit-IsWhole : (e : Entry) → IsWholeIf (visit e).0
unfolding visit
visit-IsWhole e = elim (Bool-cases (starts_with (codes "event") e.name)) [
  | inl p ↦ rw p (open_entry-IsWhole e (build input_dir e.name))
  | inr p ↦ rw p tt
]

or_next-IsWhole :
    (v : Option DeviceHandle × List Request) (rest : DeviceHandle × List Request)
    → IsWholeIf v.0
    → IsWhole rest.0
    → IsWhole (or_next v rest).0
or_next-IsWhole (none, es) rest w w' = w'
or_next-IsWhole (some h, es) rest w w' = w

scan-IsWhole : (es : List Entry) → IsWhole (scan es).0
unfolding scan
scan-IsWhole [] = refl
scan-IsWhole (e ∷ es) = or_next-IsWhole (visit e) (scan es) (visit-IsWhole e) (scan-IsWhole es)

find_device-IsWhole : (dir : Option (List Entry)) → IsWhole (find_device dir).0
unfolding find_device
find_device-IsWhole none = refl
find_device-IsWhole (some es) = scan-IsWhole es

released :
    (dev : DeviceHandle) (ok : Bool)
    → IsWhole dev
    → after (grab_device dev ok ++ (release_device dev).1) (with_handle dev no_resources)
      ≡ no_resources
unfolding grab_device release_device
released dev ok w = of_object dev.fd dev.evdev ok w
  where
    of_object :
        (fd : ℤ) (o : Option Evdev) (ok : Bool)
        → is_negative fd ≡ not (is_some o)
        → let dev : DeviceHandle = record { fd = fd; evdev = o } in
          after (grab_device dev ok ++ (release_device dev).1) (with_handle dev no_resources)
          ≡ no_resources
    of_object fd none ok w = rw w refl
    of_object fd (some d) true w = rw (w, eqb_ℤ_refl fd) (ground arith)
    of_object fd (some d) false w = rw (w, eqb_ℤ_refl fd) (ground arith)

-- Whatever the directory holds, whichever opens fail and whether the grab succeeds: when the handle
-- of the search is grabbed and released, the directory, every descriptor and every object that
-- were opened are closed again, and no grab is left.
pub release_device-after :
    (dir : Option (List Entry)) (ok : Bool)
    → let (dev, rs) = find_device dir in
      after (rs ++ (grab_device dev ok ++ (release_device dev).1)) no_resources ≡ no_resources
release_device-after dir ok =
    let (dev, rs) = find_device dir in
    after-append rs (grab_device dev ok ++ (release_device dev).1) no_resources
    ∙ ap (after (grab_device dev ok ++ (release_device dev).1)) (find_device-after dir)
    ∙ released dev ok (find_device-IsWhole dir)
