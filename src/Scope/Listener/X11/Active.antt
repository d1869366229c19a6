-- ===== src/Scope/Listener/X11/Active.antt =====
-- What the X11 backend publishes.
use loginext.Scope.Listener.Kwin.Activated.{rule_hash_first}
use loginext.Scope.Listener.Published.{Publishes, publish_and_log-Publishes}
use loginext.Scope.Listener.X11.{Reply, publish_class, publish_window, x11_publish_active}
use loginext.Scope.Listener.{Listener, first_text}
use loginext.Prelude.{ℕ, zero, suc, ◌≡◌, refl, Option, none, some, [], Bytes, codes}

-- The source and the key that a reply stands for; an error stands for what was there.
abbrev pub class_focus : Option (Option Bytes × Option Bytes) → Bytes × Bytes
class_focus none = (codes "x11:no_wm_class", [])
class_focus (some (instance_name, class_name)) = (codes "x11", first_text instance_name class_name)

abbrev pub focus_of : Option ℕ → Option (Option Bytes × Option Bytes) → Option (Bytes × Bytes)
focus_of none cls = none
focus_of (some zero) cls = some (codes "x11:no_active", [])
focus_of (some (suc w)) cls = some (class_focus cls)

abbrev pub Follows : Listener → Option (Bytes × Bytes) → Listener → Type 0
Follows l none l' = l' ≡ l
Follows l (some (src, key)) l' = Publishes src key l'

-- On every reply of the server: an error changes nothing; no active window, or one without a class,
-- publishes no application; any other publishes its instance, or its class if the instance is
-- missing or empty, and the hash is that of the text whose front is the published name.
pub x11_publish_active-Follows :
    (l : Listener) (r : Reply) → Follows l (focus_of r.active r.wm_class) (x11_publish_active l r)
unfolding x11_publish_active
x11_publish_active-Follows l r = of_window r.active r.wm_class
  where
    of_class :
        (cls : Option (Option Bytes × Option Bytes))
        → Follows l (some (class_focus cls)) (publish_class l cls)
    of_class none = publish_and_log-Publishes l 0 (codes "x11:no_wm_class") [] none none refl refl
    of_class (some (i, k)) =
        publish_and_log-Publishes l _ (codes "x11") (first_text i k) i k refl (rule_hash_first k i)

    of_window :
        (w : Option ℕ) (cls : Option (Option Bytes × Option Bytes))
        → Follows l (focus_of w cls) (publish_window l w cls)
    of_window none cls = refl
    of_window (some zero) cls =
        publish_and_log-Publishes l 0 (codes "x11:no_active") [] none none refl refl
    of_window (some (suc w)) cls = of_class cls
