-- ===== src/Scope/Listener/Plasma/Windows.antt =====
-- The windows that the Plasma backend holds.
use loginext.Scope.Listener.Plasma.{
  PlasmaSlot, PlasmaState, blank, slot_at, with_slot, publish_slot, plw_app_id_changed,
  plw_state_changed, plw_unmapped, alloc_from, register_at, plw_register_window, PlasmaEvent,
  window, app_id_changed, state_changed, unmapped, ignored, on_plasma_event, on_plasma_events,
  window_of, destroy_windows, text_or_empty, app_id_max,
}
use mathlib.Core.Option.{some-injective, none-ne-some}
use loginext.Prelude.{
  ℕ, zero, suc, ◌+◌, ◌<◌, ◌≡◌, refl, ap, subst, Bool, true, not, ◌&&◌, ◌||◌, ◌==◌, if◌then◌else◌,
  Option, none, some, List, [], ◌∷◌, ◌++◌, get_or, set, length, take, Bytes, Bool-cases, if_keeps,
  inl, inr, arith,
}

-- How often a window is in a list.
abbrev pub count : ℕ → List ℕ → ℕ
count w [] = 0
count w (v ∷ vs) = (if w == v then 1 else 0) + count w vs

count-append : (w : ℕ) (a b : List ℕ) → count w (a ++ b) ≡ count w a + count w b
count-append w [] b = omega arith
count-append w (v ∷ a) b = omega (arith, count-append w a b)

-- The windows that the slots hold.
abbrev pub held : ℕ → List PlasmaSlot → ℕ
held w ss = count w (destroy_windows ss)

held_cons :
    (w : ℕ) (s : PlasmaSlot) (ss : List PlasmaSlot)
    → held w (s ∷ ss) ≡ count w (window_of s) + held w ss
unfolding destroy_windows
held_cons w s ss = count-append w (window_of s) (destroy_windows ss)

held-set :
    (w : ℕ) (ss : List PlasmaSlot) (i : ℕ) (s : PlasmaSlot)
    → i < length ss
    → held w (set ss i s) + count w (window_of (get_or ss i blank))
      ≡ held w ss + count w (window_of s)
held-set w [] i s h = absurd (omega arith)
held-set w (t ∷ ss) zero s h = omega (arith, held_cons w s ss, held_cons w t ss)
held-set w (t ∷ ss) (suc i) s h =
    let rest = held-set w ss i s (omega arith) in
    omega (arith, held_cons w t (set ss i s), held_cons w t ss, rest)

-- A write that keeps the slot's window keeps all the windows.
destroy_windows-set :
    (ss : List PlasmaSlot) (i : ℕ) (s : PlasmaSlot)
    → window_of s ≡ window_of (get_or ss i blank)
    → destroy_windows (set ss i s) ≡ destroy_windows ss
unfolding destroy_windows
destroy_windows-set [] i s e = refl
destroy_windows-set (t ∷ ss) zero s e = ap (λ ws. ws ++ destroy_windows ss) e
destroy_windows-set (t ∷ ss) (suc i) s e =
    ap (λ ws. window_of t ++ ws) (destroy_windows-set ss i s e)

in_range :
    (ss : List PlasmaSlot) (i : ℕ) (win : ℕ)
    → window_of (get_or ss i blank) ≡ win ∷ []
    → i < length ss
in_range [] i win e = cc
in_range (s ∷ ss) zero win e = omega arith
in_range (s ∷ ss) (suc i) win e = omega (arith, in_range ss i win e)

-- The slot that is found is in range and holds no window.
abbrev IsFree : List PlasmaSlot → ℕ → Type 0
IsFree ss j = (j < length ss) × (window_of (get_or ss j blank) ≡ [])

alloc_from_lem :
    (ss : List PlasmaSlot) (k i : ℕ)
    → alloc_from ss k ≡ some i
    → (j : ℕ) × (i ≡ k + j) × IsFree ss j
unfolding alloc_from
alloc_from_lem [] k i e = absurd (none-ne-some i e)
alloc_from_lem (s ∷ ss) k i e = elim (Bool-cases s.in_use) [
  | inl b ↦
      let (j, at, (small, free)) = alloc_from_lem ss (k + 1) i (rw b at e) in
      (suc j, omega arith, (omega arith, free))
  | inr b ↦
      let same : k ≡ i = some-injective k i (rw b at e) in
      (0, omega arith, (omega arith, rw b refl))
]

-- What an event creates, and the events that the compositor may send: a window is unmapped that its
-- slot holds.
abbrev pub created : PlasmaEvent → List ℕ
created (window none) = []
created (window (some win)) = win ∷ []
created (app_id_changed i app_id) = []
created (state_changed i now_active) = []
created (unmapped i win) = []
created ignored = []

abbrev pub IsSent : PlasmaState → PlasmaEvent → Type 0
IsSent st (unmapped i win) = window_of (slot_at st i) ≡ win ∷ []
IsSent st (window win) = Unit
IsSent st (app_id_changed i app_id) = Unit
IsSent st (state_changed i now_active) = Unit
IsSent st ignored = Unit

abbrev pub AreSent : PlasmaState → List PlasmaEvent → Type 0
AreSent st [] = Unit
AreSent st (e ∷ es) = IsSent st e × AreSent (on_plasma_event st e).0 es

abbrev pub all_created : List PlasmaEvent → List ℕ
all_created [] = []
all_created (e ∷ es) = created e ++ all_created es

-- Windows are neither lost nor destroyed twice.
abbrev Balanced : ℕ → PlasmaState → List ℕ → PlasmaState × List ℕ → Type 0
Balanced w st new (st', gone) = count w gone + held w st'.slots ≡ count w new + held w st.slots

app_id_changed-Balanced :
    (w : ℕ) (st : PlasmaState) (i : ℕ) (app_id : Option Bytes)
    → Balanced w st [] (plw_app_id_changed st i app_id, [])
unfolding plw_app_id_changed
app_id_changed-Balanced w st i app_id =
    let s = record (slot_at st i) { app_id = take app_id_max (text_or_empty app_id) } in
    let e = ap (λ ws. 0 + count w ws) (destroy_windows-set st.slots i s refl) in
    if_keeps (λ st'. Balanced w st [] (st', [])) s.active {x = publish_slot (with_slot st i s) s}
      {y = with_slot st i s} e e

state_changed-Balanced :
    (w : ℕ) (st : PlasmaState) (i : ℕ) (now : Bool)
    → Balanced w st [] (plw_state_changed st i now, [])
unfolding plw_state_changed
state_changed-Balanced w st i now =
    let s = record (slot_at st i) { active = now } in
    let e = ap (λ ws. 0 + count w ws) (destroy_windows-set st.slots i s refl) in
    if_keeps (λ st'. Balanced w st [] (st', []))
      ((now && (slot_at st i).active) || (not now && not (slot_at st i).active)) {x = st} refl
      (if_keeps (λ st'. Balanced w st [] (st', [])) now {x = publish_slot (with_slot st i s) s}
        {y = with_slot st i s} e e)

unmapped-Balanced :
    (w : ℕ) (st : PlasmaState) (i win : ℕ)
    → window_of (slot_at st i) ≡ win ∷ []
    → Balanced w st [] (plw_unmapped st i win)
unfolding plw_unmapped
unmapped-Balanced w st i win e =
    let freed = held-set w st.slots i blank (in_range st.slots i win e) in
    let one = ap (count w) e in omega (arith, freed, one)

register-Balanced :
    (w : ℕ) (st : PlasmaState) (win : ℕ) (o : Option ℕ)
    → alloc_from st.slots 0 ≡ o
    → Balanced w st (win ∷ []) (register_at st win o)
register-Balanced w st win none e = refl
register-Balanced w st win (some i) e =
    let (j, at, (small, free)) = alloc_from_lem st.slots 0 i e in
    let same : j ≡ i = omega arith in
    let taken =
      held-set w st.slots j (record blank { owned = true; in_use = true; window = some win })
        small in
    let none_before = ap (count w) free in
    subst (λ k. Balanced w st (win ∷ []) (register_at st win (some k))) same
      (omega (arith, taken, none_before))

event-Balanced :
    (w : ℕ) (st : PlasmaState) (e : PlasmaEvent)
    → IsSent st e
    → Balanced w st (created e) (on_plasma_event st e)
unfolding on_plasma_event plw_register_window
event-Balanced w st (window none) h = refl
event-Balanced w st (window (some win)) h = register-Balanced w st win (alloc_from st.slots 0) refl
event-Balanced w st (app_id_changed i app_id) h = app_id_changed-Balanced w st i app_id
event-Balanced w st (state_changed i now) h = state_changed-Balanced w st i now
event-Balanced w st (unmapped i win) h = unmapped-Balanced w st i win h
event-Balanced w st ignored h = refl

-- Over any events that the compositor may send: each window that was created has been destroyed, or is
-- held by a slot, exactly as often as it was created or held before. A window that finds no free
-- slot is destroyed at once. So the loop over the slots at the end destroys exactly what is left.
pub on_plasma_events_balanced :
    (w : ℕ) (st : PlasmaState) (es : List PlasmaEvent)
    → AreSent st es
    → let (st', gone) = on_plasma_events st es in
      count w (gone ++ destroy_windows st'.slots)
      ≡ count w (all_created es ++ destroy_windows st.slots)
unfolding on_plasma_events
on_plasma_events_balanced w st [] h = refl
on_plasma_events_balanced w st (e ∷ es) h =
    let (st', gone) = on_plasma_event st e in
    let (st'', gone') = on_plasma_events st' es in
    let first = event-Balanced w st e h.0 in
    let rest = on_plasma_events_balanced w st' es h.1 in
    omega (
      arith,
      first,
      rest,
      count-append w (gone ++ gone') (destroy_windows st''.slots),
      count-append w gone gone',
      count-append w gone' (destroy_windows st''.slots),
      count-append w (created e ++ all_created es) (destroy_windows st.slots),
      count-append w (created e) (all_created es),
      count-append w (all_created es) (destroy_windows st'.slots),
    )
