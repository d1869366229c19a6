-- ===== src/Scope/Listener/Plasma/Active.antt =====
-- What the Plasma backend publishes of the active window.
use loginext.Scope.Listener.Plasma.{
  PlasmaState, PlasmaSlot, slot_at, with_slot, publish_slot, app_id_hash, app_id_max, text_or_empty,
  plw_app_id_changed, plw_state_changed,
}
use loginext.Scope.Listener.Published.{Publishes, publish_and_log-Publishes, key_hash}
use loginext.Scope.Listener.{first_text}
use loginext.Prelude.{ℕ, ◌≡◌, refl, ap, true, false, Option, some, [], ◌∷◌, take, Bytes, codes}

app_id_hash_lem : (s : Bytes) → app_id_hash s ≡ key_hash s
app_id_hash_lem [] = refl
app_id_hash_lem (c ∷ s) = refl

first_text_same : (s : Bytes) → first_text (some s) (some s) ≡ s
first_text_same [] = refl
first_text_same (c ∷ s) = refl

publish_slot-Publishes :
    (st : PlasmaState) (s : PlasmaSlot)
    → Publishes (codes "kde-wayland") s.app_id (publish_slot st s).listener
publish_slot-Publishes st s =
    publish_and_log-Publishes st.listener _ (codes "kde-wayland") s.app_id _ _
      (ap (take app_id_max) (first_text_same s.app_id)) (app_id_hash_lem s.app_id)

-- The slot's application is published when its window becomes active, and when the id of the active
-- window changes; then it is the new id, cut to 127 bytes, whose hash is published.
pub plasma-Publishes :
    (st : PlasmaState) (i : ℕ) (app_id : Option Bytes)
    → let src = codes "kde-wayland" in
      ((slot_at st i).active ≡ false
        → Publishes src (slot_at st i).app_id (plw_state_changed st i true).listener)
      × ((slot_at st i).active ≡ true
          → Publishes src
              (take app_id_max (text_or_empty app_id))
              (plw_app_id_changed st i app_id).listener)
unfolding plw_state_changed plw_app_id_changed
plasma-Publishes st i app_id =
    let s = record (slot_at st i) { active = true } in
    let s' = record (slot_at st i) { app_id = take app_id_max (text_or_empty app_id) } in
    (
      λ e. rw e (publish_slot-Publishes (with_slot st i s) s),
      λ e. rw e (publish_slot-Publishes (with_slot st i s') s'),
    )
