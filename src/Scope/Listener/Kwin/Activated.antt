-- ===== src/Scope/Listener/Kwin/Activated.antt =====
-- What a call of `Activated` publishes.
use loginext.Scope.Listener.Kwin.{rule_hash, or_else, kwin_on_activated}
use loginext.Env.{nonempty}
use loginext.Scope.Listener.Published.{Publishes, publish_and_log-Publishes, key_hash}
use loginext.Scope.Listener.{Listener, first_text}
use loginext.Prelude.{◌≡◌, refl, Option, none, some, [], ◌∷◌, Bytes, codes, true}

pub rule_hash_first :
    (klass name : Option Bytes)
    → rule_hash (or_else (nonempty name) klass) ≡ key_hash (first_text name klass)
rule_hash_first none none = refl
rule_hash_first none (some []) = refl
rule_hash_first (some []) none = refl
rule_hash_first (some []) (some []) = refl
rule_hash_first (some (c ∷ s)) none = refl
rule_hash_first (some (c ∷ s)) (some []) = refl
rule_hash_first none (some (d ∷ t)) = refl
rule_hash_first (some []) (some (d ∷ t)) = refl
rule_hash_first (some (c ∷ s)) (some (d ∷ t)) = refl

-- The script's call publishes the resource name, or the resource class if the name is missing or
-- empty: the hash is that of the text whose front is the published name.
pub kwin_on_activated-Publishes :
    (l : Listener) (klass name : Option Bytes)
    → Publishes (codes "kwin-dbus") (first_text name klass) (kwin_on_activated l klass name)
unfolding kwin_on_activated
kwin_on_activated-Publishes l klass name =
    publish_and_log-Publishes (record l { kwin_received_any = true }) _ (codes "kwin-dbus")
      (first_text name klass) name klass refl (rule_hash_first klass name)
