-- ===== src/Ipc/Dispatch.antt =====
-- ipc/dispatch.cpp: the commands, from a request line to a response line. A response is a list of
-- bytes; the size of the response buffer is an argument.
pub mod Escape
pub mod Fits
use loginext.Config.Profile.{SensitivityMode, mode_name}
use loginext.Config.Settings.{Settings}
use loginext.Ipc.Request.{extract_string, strip_cr}
use loginext.Presets.{PresetId, preset_count, preset_at, preset_id_str, preset_name}
use loginext.Scope.Rules.{AppRule, RuleTable, lookup, invert_inherit, invert_on}
use loginext.Prelude.{
  ℕ, zero, suc, ◌+◌, ◌/◌, ◌%◌, ◌^◌, ◌≤◌, Bool, true, false, not, ◌&&◌, ◌||◌, ltb, leb, ◌==◌,
  if◌then◌else◌, Option, none, some, ℤ, negsuc, eqb_ℤ, List, [], ◌∷◌, ◌++◌, length, take, Bytes,
  codes, eq_bytes,
}

-- The result of a handler: a negative number, 0, or the bytes of a response.
pub data Response : Type 0 where
  drop silent : Response
  respond : Bytes → Response

-- `snprintf` into a buffer of `cap` bytes, where a text that does not fit is an error.
abbrev pub print_into : ℕ → Bytes → Response
print_into cap text =
    if ltb 0 (length text) && ltb (length text) cap then respond text else Response.drop

abbrev pub write_err : ℕ → Bytes → Response
write_err cap code = print_into cap (codes "{\"ok\":false,\"err\":\"" ++ code ++ codes "\"}")

abbrev pub handle_ping : ℕ → Response
handle_ping cap = print_into cap (codes "{\"ok\":true,\"v\":1}")

unfoldable pub bool_str : Bool → Bytes
bool_str true = codes "true"
bool_str false = codes "false"

abbrev pub handle_get_settings : ℕ → Settings → Response
handle_get_settings cap s = print_into cap (
    codes "{\"ok\":true,\"mode\":\""
    ++ mode_name s.mode
    ++ codes "\",\"invert_hwheel\":"
    ++ bool_str s.invert_hwheel
    ++ codes ",\"active_preset\":\""
    ++ preset_id_str s.active_preset
    ++ codes "\"}")

abbrev pub handle_list_devices : ℕ → Response
handle_list_devices cap =
    print_into cap
      (codes "{\"ok\":true,\"devices\":[{\"id\":\"mx_master_3s\",\"name\":\"MX Master 3S\"}]}")

abbrev pub handle_list_controls : ℕ → Response
handle_list_controls cap = print_into cap (
    codes
      "{\"ok\":true,\"controls\":[{\"id\":\"thumb_wheel\",\"name\":\"Thumb Wheel\",\"kind\":\"wheel_h\"}]}")

abbrev pub preset_entry : ℕ → Bytes
preset_entry i =
    (if i == 0 then [] else codes ",")
    ++ codes "{\"id\":\""
    ++ preset_id_str (preset_at i)
    ++ codes "\",\"name\":\""
    ++ preset_name (preset_at i)
    ++ codes "\"}"

-- The loop over the preset table, with the rounds left, `i` and the body so far; `none` is the early
-- `-1` of a body that outgrows its 512 bytes.
unfoldable pub preset_entries : ℕ → ℕ → Bytes → Option Bytes
preset_entries zero i body = some body
preset_entries (suc n) i body =
    let rest = preset_entries n (i + 1) (body ++ preset_entry i) in
    if leb 512 (length body + length (preset_entry i)) then none else rest

unfoldable pub handle_list_presets : ℕ → Settings → Response
handle_list_presets cap s = elim (preset_entries preset_count 0 []) [
  | none ↦ Response.drop
  | some body ↦ print_into cap (
      codes "{\"ok\":true,\"presets\":["
      ++ body
      ++ codes "],\"active\":\""
      ++ preset_id_str s.active_preset
      ++ codes "\"}")
]

-- The loop of `json_escape_into`, on a text without its NUL; `n` is `out`.
unfoldable pub escape_from : ℕ → ℕ → Bytes → Bytes
escape_from cap n [] = []
escape_from cap n (c ∷ s) =
    let two = b'\\' ∷ c ∷ escape_from cap (n + 2) s in
    let one = c ∷ escape_from cap (n + 1) s in
    let skip = escape_from cap n s in
    if leb cap (n + 2)
    then []
    else if c == b'"' || c == b'\\'
    then two
    else if leb 32 c
    then one
    else skip

unfoldable pub json_escape_into : ℕ → Bytes → Bytes
json_escape_into cap src = if cap == 0 then [] else escape_from cap 0 src

-- What the listener publishes for inspection. The texts are NUL-terminated.
pub record ActiveApp : Type 0 where
  pub active_app_hash : ℕ
  pub intro_name : Bytes
  pub intro_source : Bytes

-- `DispatchCtx`, with the objects that it points to.
pub record DispatchCtx : Type 0 where
  pub settings : Settings
  pub reload_flag : Bool
  pub reload_pending_fd : ℤ
  pub scope : Option ActiveApp
  pub rules : Option RuleTable
  pub stop_flag : Bool

abbrev pub hex_digit : ℕ → ℕ
hex_digit d = if ltb d 10 then d + b'0' else d + 87

-- `%08x`, with the digits left
unfoldable pub hex : ℕ → ℕ → Bytes
hex zero x = []
hex (suc n) x = hex_digit (x / 16 ^ n % 16) ∷ hex n x

-- `hash`, `name` and `source`: copies of at most 127 and 15 bytes.
unfoldable pub introspect : Option ActiveApp → ActiveApp
introspect none = record { active_app_hash = 0; intro_name = []; intro_source = codes "none" }
introspect (some a) = record a {
  intro_name = take 127 a.intro_name;
  intro_source = take 15 a.intro_source;
}

abbrev pub find_rule : Option RuleTable → ℕ → Option AppRule
find_rule none hash = none
find_rule (some rules) hash = lookup rules hash

-- `matched`, and the effective preset, mode and invert flag.
pub record Resolved : Type 0 where
  pub preset : PresetId
  pub mode : SensitivityMode
  pub invert : Bool
  pub matched : Bool

unfoldable pub resolve_rule : Settings → Option AppRule → Resolved
resolve_rule s none = record {
  preset = s.active_preset;
  mode = s.mode;
  invert = s.invert_hwheel;
  matched = false;
}
resolve_rule s (some rule) = record {
  preset = rule.preset;
  mode = override rule.mode;
  invert =
      if eqb_ℤ rule.invert invert_inherit then s.invert_hwheel else eqb_ℤ rule.invert invert_on;
  matched = true;
}
  where
    override : SensitivityMode → SensitivityMode
    override SensitivityMode.inherit = s.mode
    override m = m

abbrev pub active_app_text : ActiveApp → Settings → Resolved → Bytes
active_app_text a s r =
    codes "{\"ok\":true,\"hash\":\"0x"
    ++ hex 8 a.active_app_hash
    ++ codes "\",\"name\":\""
    ++ json_escape_into 256 a.intro_name
    ++ codes "\",\"source\":\""
    ++ json_escape_into 32 a.intro_source
    ++ codes "\",\"preset\":\""
    ++ preset_id_str r.preset
    ++ codes "\",\"global_preset\":\""
    ++ preset_id_str s.active_preset
    ++ codes "\",\"rule_matched\":"
    ++ bool_str r.matched
    ++ codes ",\"mode\":\""
    ++ mode_name r.mode
    ++ codes "\",\"invert\":"
    ++ bool_str r.invert
    ++ codes "}"

unfoldable pub handle_get_active_app : ℕ → DispatchCtx → Response
handle_get_active_app cap dc =
    let a = introspect dc.scope in
    print_into cap (
      active_app_text a dc.settings
        (resolve_rule dc.settings (find_rule dc.rules a.active_app_hash)))

-- The acknowledgement is deferred.
abbrev pub handle_reload : DispatchCtx → ℤ → DispatchCtx × Response
handle_reload dc client_fd =
    (record dc { reload_flag = true; reload_pending_fd = client_fd }, Response.silent)

abbrev pub handle_quit : ℕ → DispatchCtx → DispatchCtx × Response
handle_quit cap dc =
    (record dc { stop_flag = true }, print_into cap (codes "{\"ok\":true,\"state\":\"stopping\"}"))

unfoldable pub run_command : Bytes → ℕ → DispatchCtx → ℤ → DispatchCtx × Response
run_command cmd cap dc client_fd =
    let is = eq_bytes cmd in
    if is (codes "ping")
    then (dc, handle_ping cap)
    else if is (codes "get_settings")
    then (dc, handle_get_settings cap dc.settings)
    else if is (codes "list_devices")
    then (dc, handle_list_devices cap)
    else if is (codes "list_controls")
    then (dc, handle_list_controls cap)
    else if is (codes "list_presets")
    then (dc, handle_list_presets cap dc.settings)
    else if is (codes "reload")
    then handle_reload dc client_fd
    else if is (codes "get_active_app")
    then (dc, handle_get_active_app cap dc)
    else if is (codes "quit")
    then handle_quit cap dc
    else (dc, write_err cap (codes "unknown_command"))

abbrev pub dispatch_command : Bytes → ℕ → DispatchCtx → ℤ → DispatchCtx × Response
dispatch_command [] cap dc client_fd = (dc, write_err cap (codes "bad_request"))
dispatch_command (c ∷ cmd) cap dc client_fd = run_command (c ∷ cmd) cap dc client_fd

abbrev pub dispatch_line : Bytes → ℕ → DispatchCtx → ℤ → DispatchCtx × Response
dispatch_line [] cap dc client_fd = (dc, Response.silent)
dispatch_line (c ∷ sv) cap dc client_fd =
    dispatch_command (extract_string (c ∷ sv) (codes "cmd")) cap dc client_fd

unfoldable pub dispatch_with_fd : Bytes → ℕ → DispatchCtx → ℤ → DispatchCtx × Response
dispatch_with_fd line cap dc client_fd = dispatch_line (strip_cr line) cap dc client_fd

unfoldable pub dispatch : Bytes → ℕ → DispatchCtx → DispatchCtx × Response
dispatch line cap dc = dispatch_with_fd line cap dc (negsuc 0)
