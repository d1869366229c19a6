-- ===== src/Core/Emitter/Handle.antt =====
-- core/emitter.cpp: setting up and taking down the two virtual devices. Whether the kernel accepts an
-- `ioctl`, and what `open` returns, are arguments.
use loginext.Core.Emitter.{ev_key, ev_rel, ev_msc, keyboard_codes}
use mathlib.Core.List.{map}
use loginext.Prelude.{
  ℕ, Bool, true, false, not, ◌&&◌, if◌then◌else◌, ℤ, negsuc, is_negative, List, [], ◌∷◌, ◌++◌, ◌≡◌,
  inl, inr, refl, Bytes, codes, Bool-cases,
}

pub record EmitterHandle : Type 0 where
  pub kbd_fd : ℤ
  pub mouse_fd : ℤ

-- `EmitterHandle{}`
abbrev pub no_devices : EmitterHandle
no_devices = record { kbd_fd = negsuc 0; mouse_fd = negsuc 0 }

-- The `ioctl` requests; `dev_setup` has the name and the product number.
pub data Request : Type 0 where
  set_evbit set_keybit set_relbit set_mscbit : ℕ → Request
  dev_setup : Bytes → ℕ → Request
  dev_create : Request

abbrev pub keyboard_requests : List Request
keyboard_requests =
    set_evbit ev_key ∷ map set_keybit keyboard_codes
    ++ dev_setup (codes "loginext-kbd") 1 ∷ dev_create ∷ []

-- The buttons and axes of linux/input-event-codes.h that the mouse declares.
abbrev pub mouse_requests : List Request
mouse_requests =
    set_evbit ev_key ∷ map set_keybit (0x110 ∷ 0x111 ∷ 0x112 ∷ 0x113 ∷ 0x114 ∷ [])
    ++ set_evbit ev_rel ∷ map set_relbit (0 ∷ 1 ∷ 8 ∷ 6 ∷ 11 ∷ 12 ∷ [])
    ++ set_evbit ev_msc ∷ set_mscbit 4 ∷ dev_setup (codes "loginext-mouse") 2 ∷ dev_create ∷ []

-- The requests in order, up to the first that is refused; the flag is true for the result 0.
unfoldable pub setup : (Request → Bool) → List Request → Bool
setup accepts [] = true
setup accepts (r ∷ rs) = accepts r && setup accepts rs

abbrev pub setup_keyboard : (Request → Bool) → Bool
setup_keyboard accepts = setup accepts keyboard_requests

abbrev pub setup_mouse : (Request → Bool) → Bool
setup_mouse accepts = setup accepts mouse_requests

-- UI_DEV_DESTROY and `close`
pub data Call : Type 0 where
  dev_destroy close : ℤ → Call

-- The arguments after the handle: what `open_uinput` returns and what the kernel accepts, for each
-- device. The last component is true for the result 0.
unfoldable pub init_emitter :
    EmitterHandle → ℤ → (Request → Bool) → ℤ → (Request → Bool) → EmitterHandle × List Call × Bool
init_emitter em kbd kbd_accepts mouse mouse_accepts =
    if is_negative kbd
    then (record em { kbd_fd = kbd }, [], false)
    else if not (setup_keyboard kbd_accepts)
    then (record em { kbd_fd = negsuc 0 }, close kbd ∷ [], false)
    else if is_negative mouse
    then (record { kbd_fd = negsuc 0; mouse_fd = mouse }, dev_destroy kbd ∷ close kbd ∷ [], false)
    else if not (setup_mouse mouse_accepts)
    then (no_devices, dev_destroy kbd ∷ close kbd ∷ close mouse ∷ [], false)
    else (record { kbd_fd = kbd; mouse_fd = mouse }, [], true)

unfoldable pub destroy_device : ℤ → ℤ × List Call
destroy_device fd = if is_negative fd then (fd, []) else (negsuc 0, dev_destroy fd ∷ close fd ∷ [])

unfoldable pub destroy_emitter : EmitterHandle → EmitterHandle × List Call
unfolding destroy_device
destroy_emitter em =
    let (kbd, a) = destroy_device em.kbd_fd in
    let (mouse, b) = destroy_device em.mouse_fd in
    (record { kbd_fd = kbd; mouse_fd = mouse }, a ++ b)

-- The descriptors that the calls close.
unfoldable pub closed : List Call → List ℤ
closed [] = []
closed (dev_destroy fd ∷ cs) = closed cs
closed (close fd ∷ cs) = fd ∷ closed cs

-- The descriptors that `init_emitter` opens.
abbrev pub opened : ℤ → (Request → Bool) → ℤ → List ℤ
opened kbd kbd_accepts mouse =
    if is_negative kbd
    then []
    else if not (setup_keyboard kbd_accepts)
    then kbd ∷ []
    else if is_negative mouse
    then kbd ∷ []
    else kbd ∷ mouse ∷ []

-- `init_emitter` followed by `destroy_emitter` closes each descriptor that was opened, once and in
-- order, whichever step fails; a failure leaves no valid descriptor in the handle, a success two.
pub init_emitter-closed :
    (kbd mouse : ℤ) (kbd_accepts mouse_accepts : Request → Bool)
    → let (em, calls, ok) = init_emitter no_devices kbd kbd_accepts mouse mouse_accepts in
      (closed (calls ++ (destroy_emitter em).1) ≡ opened kbd kbd_accepts mouse)
      × (is_negative em.kbd_fd ≡ not ok)
      × (is_negative em.mouse_fd ≡ not ok)
unfolding init_emitter destroy_emitter destroy_device closed
init_emitter-closed kbd mouse kbd_accepts mouse_accepts = elim (Bool-cases (is_negative kbd)) [
  | inl e ↦ rw (e, e) (refl, refl, refl)
  | inr e ↦ elim (Bool-cases (setup_keyboard kbd_accepts)) [
    | inr k ↦ rw (e, k) (refl, refl, refl)
    | inl k ↦ elim (Bool-cases (is_negative mouse)) [
      | inl m ↦ rw (e, k, m, m) (refl, refl, refl)
      | inr m ↦ elim (Bool-cases (setup_mouse mouse_accepts)) [
        | inr r ↦ rw (e, k, m, r) (refl, refl, refl)
        | inl r ↦ rw (e, k, m, r, e, m) (refl, refl, refl)
      ]
    ]
  ]
]
