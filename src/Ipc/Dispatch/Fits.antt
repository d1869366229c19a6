-- ===== src/Ipc/Dispatch/Fits.antt =====
-- The responses fit in their buffer and in a line.
use loginext.Config.Profile.{SensitivityMode, mode_name}
use loginext.Config.Settings.{Settings}
use loginext.Ipc.Dispatch.Escape.{is_printable, escape_from-length, escape_from-is_printable}
use loginext.Ipc.Request.{extract_string, strip_cr}
use loginext.Ipc.Dispatch.{
  Response, respond, print_into, bool_str, handle_get_settings, preset_entries, handle_list_presets,
  json_escape_into, ActiveApp, DispatchCtx, hex, introspect, Resolved, active_app_text,
  handle_get_active_app, run_command, dispatch_command, dispatch_line, dispatch_with_fd,
}
use loginext.Presets.{PresetId, preset_id_str, preset_name}
use loginext.Prelude.{
  ℕ, zero, suc, ◌+◌, ◌≤◌, ◌<◌, ◌≡◌, refl, Bool, true, false, ◌&&◌, ltb, ◌==◌, if◌then◌else◌, ℤ, [],
  ◌∷◌, ◌++◌, length, length-append, Bytes, codes, eq_bytes, arith,
}

-- At most `n` bytes, none of them a control character.
record Word (n : ℕ) (s : Bytes) : Type 0 where
  short : length s ≤ n
  plain : is_printable s ≡ true

is_printable-append :
    (a b : Bytes) → is_printable a ≡ true → is_printable b ≡ true → is_printable (a ++ b) ≡ true
is_printable-append [] b p q = q
is_printable-append (c ∷ a) b p q = ground (arith, is_printable-append a b)

infixl 5 ◌⊕◌
◌⊕◌ : {n m : ℕ} {a b : Bytes} → Word n a → Word m b → Word (n + m) (a ++ b)
◌⊕◌ {n} {m} {a} {b} v w = record {
  short = omega (arith, length-append a b, v.short, w.short);
  plain = is_printable-append a b v.plain w.plain;
}

literal : (s : Bytes) → is_printable s ≡ true → Word (length s) s
literal s p = record { short = omega arith; plain = p }

mode_name-Word : (m : SensitivityMode) → Word 6 (mode_name m)
unfolding mode_name
mode_name-Word SensitivityMode.low = record { short = omega arith; plain = refl }
mode_name-Word SensitivityMode.medium = record { short = omega arith; plain = refl }
mode_name-Word SensitivityMode.high = record { short = omega arith; plain = refl }
mode_name-Word SensitivityMode.inherit = record { short = omega arith; plain = refl }

preset_id_str-Word : (id : PresetId) → Word 7 (preset_id_str id)
unfolding preset_id_str
preset_id_str-Word PresetId.tab_nav = record { short = omega arith; plain = refl }
preset_id_str-Word PresetId.zoom = record { short = omega arith; plain = refl }
preset_id_str-Word PresetId.count = record { short = omega arith; plain = refl }
preset_id_str-Word PresetId.none = record { short = omega arith; plain = refl }

bool_str-Word : (b : Bool) → Word 5 (bool_str b)
unfolding bool_str
bool_str-Word true = record { short = omega arith; plain = refl }
bool_str-Word false = record { short = omega arith; plain = refl }

hex-Word : (n x : ℕ) → Word n (hex n x)
unfolding hex
hex-Word zero x = record { short = omega arith; plain = refl }
hex-Word (suc n) x =
    let rest = hex-Word n x in
    record { short = omega (arith, rest.short); plain = ground (arith, rest.plain) }

json_escape_into-Word : (k : ℕ) (s : Bytes) → Word k (json_escape_into (suc k) s)
unfolding json_escape_into
json_escape_into-Word k s =
    let nz : (suc k == 0) ≡ false = ground arith in
    rw nz (record {
      short = omega (arith, escape_from-length (suc k) 0 s (omega arith));
      plain = escape_from-is_printable (suc k) 0 s;
    })

-- A response that the server can send as one line of its 1024 bytes.
abbrev pub Sendable : Response → Type 0
Sendable Response.drop = ⊥
Sendable Response.silent = Unit
Sendable (respond text) = (0 < length text) × (length text < 1024) × (is_printable text ≡ true)

print_into-Sendable :
    (n : ℕ) (text : Bytes)
    → Word n text
    → 0 < length text
    → n < 1024
    → Sendable (print_into 1024 text)
print_into-Sendable n text w pos lt =
    let small : length text < 1024 = omega (arith, w.short) in
    let fits : (ltb 0 (length text) && ltb (length text) 1024) ≡ true = ground arith in
    rw fits (pos, small, w.plain)

starts : (a b : Bytes) → 0 < length a → 0 < length (a ++ b)
starts a b h = omega (arith, length-append a b)

get_settings-Sendable : (s : Settings) → Sendable (handle_get_settings 1024 s)
get_settings-Sendable s =
    print_into-Sendable _ _
      (literal (codes "{\"ok\":true,\"mode\":\"") refl
        ⊕ mode_name-Word s.mode
        ⊕ literal (codes "\",\"invert_hwheel\":") refl
        ⊕ bool_str-Word s.invert_hwheel
        ⊕ literal (codes ",\"active_preset\":\"") refl
        ⊕ preset_id_str-Word s.active_preset
        ⊕ literal (codes "\"}") refl)
      (omega arith) (omega arith)

list_presets-Sendable : (s : Settings) → Sendable (handle_list_presets 1024 s)
unfolding handle_list_presets preset_entries preset_id_str preset_name
list_presets-Sendable s = by_id s.active_preset
  where
    by_id : (id : PresetId) → Sendable (handle_list_presets 1024 (record s { active_preset = id }))
    by_id PresetId.tab_nav = (omega arith, omega arith, refl)
    by_id PresetId.zoom = (omega arith, omega arith, refl)
    by_id PresetId.count = (omega arith, omega arith, refl)
    by_id PresetId.none = (omega arith, omega arith, refl)

get_active_app-Sendable : (dc : DispatchCtx) → Sendable (handle_get_active_app 1024 dc)
unfolding handle_get_active_app
get_active_app-Sendable dc = text (introspect dc.scope) _
  where
    text :
        (a : ActiveApp) (r : Resolved)
        → Sendable (print_into 1024 (active_app_text a dc.settings r))
    text a r =
        print_into-Sendable _ _
          (literal (codes "{\"ok\":true,\"hash\":\"0x") refl
            ⊕ hex-Word 8 a.active_app_hash
            ⊕ literal (codes "\",\"name\":\"") refl
            ⊕ json_escape_into-Word 255 a.intro_name
            ⊕ literal (codes "\",\"source\":\"") refl
            ⊕ json_escape_into-Word 31 a.intro_source
            ⊕ literal (codes "\",\"preset\":\"") refl
            ⊕ preset_id_str-Word r.preset
            ⊕ literal (codes "\",\"global_preset\":\"") refl
            ⊕ preset_id_str-Word dc.settings.active_preset
            ⊕ literal (codes "\",\"rule_matched\":") refl
            ⊕ bool_str-Word r.matched
            ⊕ literal (codes ",\"mode\":\"") refl
            ⊕ mode_name-Word r.mode
            ⊕ literal (codes "\",\"invert\":") refl
            ⊕ bool_str-Word r.invert
            ⊕ literal (codes "}") refl)
          (omega arith) (omega arith)

pick-Sendable :
    (b : Bool) (x y : DispatchCtx × Response)
    → Sendable x.1
    → Sendable y.1
    → Sendable (if b then x else y).1
pick-Sendable true x y p q = p
pick-Sendable false x y p q = q

run_command-Sendable :
    (cmd : Bytes) (dc : DispatchCtx) (fd : ℤ) → Sendable (run_command cmd 1024 dc fd).1
unfolding run_command
run_command-Sendable cmd dc fd =
    pick-Sendable (eq_bytes cmd (codes "ping")) _ _ (omega arith, omega arith, refl)
      (pick-Sendable (eq_bytes cmd (codes "get_settings")) _ _ (get_settings-Sendable dc.settings) (
        pick-Sendable (eq_bytes cmd (codes "list_devices")) _ _ (omega arith, omega arith, refl)
          (pick-Sendable (eq_bytes cmd (codes "list_controls")) _ _ (omega arith, omega arith, refl)
            (pick-Sendable (eq_bytes cmd (codes "list_presets")) _ _
              (list_presets-Sendable dc.settings)
              (pick-Sendable (eq_bytes cmd (codes "reload")) _ _ tt (
                pick-Sendable (eq_bytes cmd (codes "get_active_app")) _ _
                  (get_active_app-Sendable dc)
                  (pick-Sendable (eq_bytes cmd (codes "quit")) _ _ (omega arith, omega arith, refl)
                    (omega arith, omega arith, refl))))))))

command-Sendable :
    (cmd : Bytes) (dc : DispatchCtx) (fd : ℤ) → Sendable (dispatch_command cmd 1024 dc fd).1
command-Sendable [] dc fd = (omega arith, omega arith, refl)
command-Sendable (c ∷ cmd) dc fd = run_command-Sendable (c ∷ cmd) dc fd

line-Sendable : (sv : Bytes) (dc : DispatchCtx) (fd : ℤ) → Sendable (dispatch_line sv 1024 dc fd).1
line-Sendable [] dc fd = tt
line-Sendable (c ∷ sv) dc fd = command-Sendable (extract_string (c ∷ sv) (codes "cmd")) dc fd

-- Whatever a client sends and whatever the focused window is called, with the server's buffer of
-- 1024 bytes no request makes `dispatch_with_fd` fail (which would drop the client): it gives no
-- response or one of 1 to 1023 bytes without control characters, so it is one line.
pub dispatch_with_fd-Sendable :
    (line : Bytes) (dc : DispatchCtx) (fd : ℤ) → Sendable (dispatch_with_fd line 1024 dc fd).1
unfolding dispatch_with_fd
dispatch_with_fd-Sendable line dc fd = line-Sendable (strip_cr line) dc fd
