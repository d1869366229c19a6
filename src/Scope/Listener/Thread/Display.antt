-- ===== src/Scope/Listener/Thread/Display.antt =====
-- The display that the X11 probe returns.
use loginext.Env.{Env, nonempty}
use loginext.Scope.Listener.Thread.{candidates, chosen_max, probe_displays, probe_x11_display}
use loginext.Prelude.{
  ◌≤◌, ◌≡◌, sym, subst, Bool, true, false, Option, none, some, List, [], ◌∷◌, length, take,
  take_all, Bytes, if_cases, arith,
}

abbrev Short : List Bytes → Type 0
Short [] = Unit
Short (d ∷ ds) = (length d ≤ chosen_max) × Short ds

abbrev pub NoneWorks : (Bytes → Bool) → List Bytes → Type 0
NoneWorks works [] = Unit
NoneWorks works (d ∷ ds) = (works d ≡ false) × NoneWorks works ds

-- A display that was found works; and if none was found, no candidate works.
abbrev pub IsAnswer : (Bytes → Bool) → List Bytes → Option Bytes → Type 0
IsAnswer works ds none = NoneWorks works ds
IsAnswer works ds (some d) = works d ≡ true

IsAnswer-cons :
    (works : Bytes → Bool) (d : Bytes) (ds : List Bytes) (o : Option Bytes)
    → works d ≡ false
    → IsAnswer works ds o
    → IsAnswer works (d ∷ ds) o
IsAnswer-cons works d ds none e a = (e, a)
IsAnswer-cons works d ds (some x) e a = a

probe_displays-IsAnswer :
    (works : Bytes → Bool) (ds : List Bytes)
    → Short ds
    → IsAnswer works ds (probe_displays works ds)
unfolding probe_displays
probe_displays-IsAnswer works [] h = tt
probe_displays-IsAnswer works (d ∷ ds) h =
    if_cases (IsAnswer works (d ∷ ds)) (works d) {x = some (take chosen_max d)}
      {y = probe_displays works ds}
      (λ e. subst (λ s. works s ≡ true) (sym (take_all chosen_max d h.0)) e)
      (λ e.
        IsAnswer-cons works d ds (probe_displays works ds) e (probe_displays-IsAnswer works ds h.1))

abbrev pub IsShort : Option Bytes → Type 0
IsShort none = Unit
IsShort (some d) = length d ≤ chosen_max

candidates-Short : (o : Option Bytes) → IsShort o → Short (candidates o)
candidates-Short none h = (omega arith, (omega arith, tt))
candidates-Short (some d) h = (h, (omega arith, (omega arith, tt)))

-- If $DISPLAY is not set, or has at most seven bytes: the display that the probe returns works, and if
-- it returns none, neither $DISPLAY nor the two fallbacks do. A longer one is cut before it is used.
pub probe_x11_display-IsAnswer :
    (env : Env) (works : Bytes → Bool)
    → IsShort (nonempty env.display)
    → IsAnswer works (candidates (nonempty env.display)) (probe_x11_display env works)
unfolding probe_x11_display
probe_x11_display-IsAnswer env works h =
    probe_displays-IsAnswer works (candidates (nonempty env.display))
      (candidates-Short (nonempty env.display) h)
