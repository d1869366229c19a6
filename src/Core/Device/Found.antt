-- ===== src/Core/Device/Found.antt =====
-- Which device the search of core/device.cpp returns.
use loginext.Core.Device.{
  Evdev, Entry, DeviceHandle, no_device, is_some, Request, build, is_mouse, examine, open_entry,
  visit, or_next, scan, find_device, input_dir,
}
use mathlib.Core.Option.{some-injective}
use loginext.Prelude.{
  ◌≡◌, refl, ap, sym, ◌∙◌, Bool, true, false, not, ◌&&◌, ◌||◌, ◌==◌, ◌%◌, ltb, if◌then◌else◌,
  Option, none, some, ℤ, is_negative, List, [], ◌∷◌, ◌++◌, Bytes, codes, starts_with, length,
  length-append, Bool-cases, inl, inr, arith,
}

-- The MX Master 3S, as its documented ids and axes tell: vendor 046d, product b034 at the receiver or
-- c548 on the wire, of which the kernel keeps 16 bits, and the axes X, Y and HWHEEL.
abbrev pub is_mx_master : Evdev → Bool
is_mx_master d =
    let vendor = d.id_vendor % 65_536 in
    let product = d.id_product % 65_536 in
    vendor == 0x046d
    && (product == 0xb034 || product == 0xc548)
    && d.has_hwheel
    && d.has_y
    && d.has_x

is_mouse_lem : (d : Evdev) → is_mouse d ≡ is_mx_master d
unfolding is_mouse
is_mouse_lem d = ground arith

abbrev is_mouse_object : Option Evdev → Bool
is_mouse_object none = false
is_mouse_object (some d) = is_mx_master d

-- What the search wants of an entry: the name of an event node, short enough for the path, that opens
-- as a device with the ids and the axes of the mouse.
abbrev pub is_candidate : Entry → Bool
is_candidate e =
    starts_with (codes "event") e.name
    && ltb (length e.name) 117
    && not (is_negative e.opened)
    && is_mouse_object e.device

abbrev handle_of : Entry → DeviceHandle
handle_of e = record { fd = e.opened; evdev = e.device }

-- The handle of the first candidate.
abbrev pub first_candidate : List Entry → DeviceHandle
first_candidate [] = no_device
first_candidate (e ∷ es) = if is_candidate e then handle_of e else first_candidate es

abbrev handle_if : Bool → Entry → Option DeviceHandle
handle_if b e = if b then some (handle_of e) else none

build_fits : (name : Bytes) → is_some (build input_dir name) ≡ ltb (length name) 117
unfolding build
build_fits name = ground (arith, length-append (input_dir ++ codes "/") name)

examine_lem : (e : Entry) → (examine e.opened e.device).0 ≡ handle_if (is_mouse_object e.device) e
unfolding examine
examine_lem e = of_object e.opened e.device
  where
    of_object :
        (fd : ℤ) (o : Option Evdev)
        → (examine fd o).0
          ≡ (if is_mouse_object o then some (record { fd = fd; evdev = o }) else none)
    of_object fd none = refl
    of_object fd (some d) =
        rw (is_mouse_lem d)
          (elim (Bool-cases (is_mx_master d)) [ inl m ↦ rw m refl | inr m ↦ rw m refl ])

visit_lem : (e : Entry) → (visit e).0 ≡ handle_if (is_candidate e) e
unfolding visit
visit_lem e = elim (Bool-cases (starts_with (codes "event") e.name)) [
  | inl p ↦ rw p (of_path (build input_dir e.name) (build_fits e.name))
  | inr p ↦ rw p refl
]
  where
    opened :
        (path : Bytes)
        → (open_entry e (some path)).0
          ≡ handle_if (not (is_negative e.opened) && is_mouse_object e.device) e
    opened path = elim (Bool-cases (is_negative e.opened)) [
      | inl n ↦ rw n refl
      | inr n ↦ rw n (examine_lem e)
    ]

    of_path :
        (path : Option Bytes)
        → is_some path ≡ ltb (length e.name) 117
        → (open_entry e path).0
          ≡ handle_if
              (ltb (length e.name) 117 && not (is_negative e.opened) && is_mouse_object e.device)
              e
    of_path none f = rw (sym f) refl
    of_path (some path) f = rw (sym f) (opened path)

or_next_lem :
    (b : Bool) (e : Entry) (v : Option DeviceHandle × List Request)
    (rest : DeviceHandle × List Request)
    → v.0 ≡ handle_if b e
    → (or_next v rest).0 ≡ (if b then handle_of e else rest.0)
or_next_lem true e (some h, es) rest p = some-injective _ _ p
or_next_lem true e (none, es) rest p = cc
or_next_lem false e (some h, es) rest p = cc
or_next_lem false e (none, es) rest p = refl

scan_lem : (es : List Entry) → (scan es).0 ≡ first_candidate es
unfolding scan
scan_lem [] = refl
scan_lem (e ∷ es) =
    or_next_lem (is_candidate e) e (visit e) (scan es) (visit_lem e)
    ∙ ap (λ h. if is_candidate e then handle_of e else h) (scan_lem es)

-- For every directory that opens, the search returns the descriptor and the object of the first entry
-- that is named like an event node, is at most 116 bytes long, opens, and is a device with the vendor's id, one of the two
-- product ids (written out as numbers) and all three axes of the mouse; and no device if there is no such entry.
pub find_device_first : (es : List Entry) → (find_device (some es)).0 ≡ first_candidate es
unfolding find_device
find_device_first es = scan_lem es
