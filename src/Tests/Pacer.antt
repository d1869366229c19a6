-- ===== src/Tests/Pacer.antt =====
-- Runs of the pacer, and instances of the theorems on it and on the emitter.
use loginext.Config.Profile.Sane.{IsSane, profile_for-IsSane}
use loginext.Config.Profile.{SensitivityMode, Profile, profile_medium, profile_for}
use loginext.Core.Emitter.Keys.{all_up, apply_writes}
use loginext.Core.Emitter.Lands.{Lands, nil, landed, lost}
use loginext.Core.Emitter.{Write, press_keys, emit_combo_down, emit_combo_up}
use loginext.Core.Pacer.Inv.{is_armed, fresh-IsValid}
use loginext.Core.Pacer.Refine.{view}
use loginext.Core.Pacer.Run.{react, run, run_refines, run_released}
use loginext.Core.Pacer.{fresh, arm_timer, arm_timer_ns, enqueue_combo, process_timer}
use loginext.Core.Player
use loginext.Core.Player.{Stimulus, tick, fire, check, is_overdue, flush}
use loginext.Presets.{KeyCombo, preset_zoom, preset_tab_nav}
use loginext.Prelude.{◌+◌, ◌*◌, ◌≤◌, ◌≡◌, refl, false, List, [], ◌∷◌, ◌++◌, replicate, arith}

abbrev medium : Profile
medium = profile_medium

medium-IsSane : IsSane medium
unfolding profile_for
medium-IsSane = profile_for-IsSane SensitivityMode.medium

abbrev zoom_in : KeyCombo
zoom_in = preset_zoom.on_right

-- Ten ticks overflow the ring; two expiries play the third one, as the first two were dropped.
abbrev flood : List Stimulus
flood = replicate 2 (tick preset_tab_nav.on_left 1_000) ++ replicate 8 (tick zoom_in 2_000)

flood_count : ((run medium fresh flood).0.count ≡ 8) × ((run medium fresh flood).0.head ≡ 2)
unfolding run react enqueue_combo arm_timer arm_timer_ns
flood_count = (refl, refl)

flood_plays :
    (run medium fresh (flood ++ fire ∷ fire ∷ [])).1
    ≡ emit_combo_down zoom_in ++ emit_combo_up zoom_in
unfolding run react enqueue_combo process_timer arm_timer arm_timer_ns emit_combo_down emit_combo_up
flood_plays = refl

run_refines_example :
    let (q', w) = run medium fresh (flood ++ fire ∷ check 999_000_000 ∷ []) in
    (view q', w) ≡ Player.run medium (view fresh) (flood ++ fire ∷ check 999_000_000 ∷ [])
run_refines_example =
    run_refines medium medium-IsSane (flood ++ fire ∷ check 999_000_000 ∷ []) fresh fresh-IsValid

flood_bound : 2 * (run medium fresh flood).0.count + 1 ≤ 17
unfolding run react enqueue_combo arm_timer arm_timer_ns
flood_bound = omega arith

-- All writes land.
pub all_land : (ws : List Write) → Lands ws ws
all_land [] = nil
all_land (w ∷ ws) = landed (all_land ws)

abbrev flooded : List Write
flooded = (run medium fresh (flood ++ replicate 17 fire)).1

run_released_example :
    let (q, before) = run medium fresh flood in
    let (q', writes) = run medium fresh (flood ++ replicate 17 fire) in
    (writes ≡ before ++ Player.all_played (view q))
    × (q'.count ≡ 0)
    × (q'.release_pending ≡ false)
    × (is_armed q'.timer ≡ false)
    × (apply_writes flooded all_up ≡ all_up)
run_released_example =
    run_released medium medium-IsSane flood 17 flooded flood_bound (all_land flooded)

-- A press may get lost.
press_lost : Lands (emit_combo_down zoom_in) []
unfolding emit_combo_down press_keys
press_lost = lost refl nil
