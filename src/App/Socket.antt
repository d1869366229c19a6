-- ===== src/App/Socket.antt =====
-- What a client of the control socket can rely on.
use loginext.App.{
  AppContext, Effective, with_rule, effective, send_reload_ack, on_reload, on_line, ipc_ctx,
}
use loginext.Config.Loader.{load_settings, match_lit}
use loginext.Config.Profile.{SensitivityMode, profile_for}
use loginext.Config.Settings.{Settings, IsConsistent}
use loginext.Ipc.Dispatch.{
  introspect, find_rule, Resolved, resolve_rule, dispatch_with_fd, run_command,
}
use loginext.Ipc.Request.{extract_string, strip_cr, find_after, skip_blanks, until_quote}
use loginext.Scope.Rules.{AppRule, lookup}
use loginext.Prelude.{
  ◌≡◌, ◌∙◌, ap, refl, Bool, true, false, if◌then◌else◌, Option, none, some, ℤ, is_negative, List,
  [], ◌∷◌, ◌++◌, Bytes, codes, Bool-cases, inl, inr,
}

-- The effective values that `get_active_app` reports, with the profile of its mode.
abbrev pub as_effective : Resolved → Effective
as_effective r = record { preset = r.preset; profile = profile_for r.mode; invert = r.invert }

with_rule-resolve_rule :
    (s : Settings) (o : Option AppRule)
    → IsConsistent s
    → with_rule s o ≡ as_effective (resolve_rule s o)
unfolding with_rule resolve_rule
with_rule-resolve_rule s none c = rw c.profile_is
with_rule-resolve_rule s (some rule) c = by_mode rule.mode
  where
    by_mode :
        (m : SensitivityMode)
        → with_rule s (some (record rule { mode = m }))
          ≡ as_effective (resolve_rule s (some (record rule { mode = m })))
    by_mode SensitivityMode.inherit = rw c.profile_is
    by_mode SensitivityMode.low = refl
    by_mode SensitivityMode.medium = refl
    by_mode SensitivityMode.high = refl

-- With consistent settings, what `get_active_app` works out for the focused application (preset, mode
-- and invert flag) is what `on_event` applies to its wheel events.
pub effective-resolve_rule :
    (app : AppContext)
    → IsConsistent app.settings
    → let dc = ipc_ctx app in
      let hash = (introspect dc.scope).active_app_hash in
      effective app ≡ as_effective (resolve_rule dc.settings (find_rule dc.rules hash))
unfolding effective introspect
effective-resolve_rule app c =
    with_rule-resolve_rule app.settings (lookup app.rules app.active_app_hash) c

abbrev ack : Bool → Bytes
ack ok = if ok then codes "{\"ok\":true}\n" else codes "{\"ok\":false,\"err\":\"reload_failed\"}\n"

send_reload_ack-pending :
    (app : AppContext) (ok : Bool) → is_negative (send_reload_ack app ok).0.reload_pending_fd ≡ true
unfolding send_reload_ack
send_reload_ack-pending app ok = elim (Bool-cases (is_negative app.reload_pending_fd)) [
  | inl e ↦ rw e e
  | inr e ↦ rw e
]

-- The request as the user interface sends it.
abbrev pub reload_line : Bytes
reload_line = codes "{\"cmd\":\"reload\"}"

-- Requests for a reload that arrive one after another, by the descriptors of their clients.
abbrev pub ask : AppContext → List ℤ → AppContext
ask app [] = app
ask app (fd ∷ fds) = ask (on_line app reload_line fd).0 fds

on_line-reload :
    (app : AppContext) (fd : ℤ)
    → (on_line app reload_line fd).0 ≡ record app { reload_flag = true; reload_pending_fd = fd }
unfolding on_line dispatch_with_fd run_command extract_string strip_cr find_after skip_blanks
    until_quote match_lit
on_line-reload app fd = refl

ask_last :
    (app : AppContext) (fds : List ℤ) (fd : ℤ)
    → ask app (fds ++ fd ∷ []) ≡ record app { reload_flag = true; reload_pending_fd = fd }
ask_last app [] fd = on_line-reload app fd
ask_last app (x ∷ fds) fd =
    ap (λ app'. ask app' (fds ++ fd ∷ [])) (on_line-reload app x)
    ∙ ask_last (record app { reload_flag = true; reload_pending_fd = x }) fds fd

-- The reply of a reload, to the client that waits for it.
replies_lem :
    (app : AppContext) (config rules : Option Bytes)
    → is_negative app.reload_pending_fd ≡ false
    → (on_reload app config rules).1
      ≡ record { fd = app.reload_pending_fd; text = ack (load_settings config app.settings).1 } ∷ []
unfolding on_reload send_reload_ack
replies_lem app config rules e = rw e

silent_lem :
    (app : AppContext) (config rules : Option Bytes)
    → is_negative app.reload_pending_fd ≡ true
    → (on_reload app config rules).1 ≡ []
unfolding on_reload send_reload_ack
silent_lem app config rules e = rw e

on_reload-pending :
    (app : AppContext) (config rules : Option Bytes)
    → is_negative (on_reload app config rules).0.reload_pending_fd ≡ true
unfolding on_reload
on_reload-pending app config rules = send_reload_ack-pending _ _

-- Any clients ask for a reload before it runs, one after another: the reload writes one reply, with the
-- result of loading the settings, to the client that asked last, whose descriptor is not negative. Those that asked before get none: the
-- reload does not answer them, and the next one, if nobody asks for it, answers nobody.
pub on_reload_replies :
    (app : AppContext) (fds : List ℤ) (fd : ℤ) (config rules config' rules' : Option Bytes)
    → is_negative fd ≡ false
    → let (app', replies) = on_reload (ask app (fds ++ fd ∷ [])) config rules in
      (replies ≡ record { fd = fd; text = ack (load_settings config app.settings).1 } ∷ [])
      × ((on_reload app' config' rules').1 ≡ [])
on_reload_replies app fds fd config rules config' rules' n = (
  rw (ask_last app fds fd)
      (replies_lem (record app { reload_flag = true; reload_pending_fd = fd }) config rules n),
  silent_lem (on_reload (ask app (fds ++ fd ∷ [])) config rules).0 config' rules'
      (on_reload-pending (ask app (fds ++ fd ∷ [])) config rules),
)
