-- ===== src/Util/Log/Lines.antt =====
-- The lines that the logger writes.
use loginext.Util.Log.{
  LogState, LogLevel, LogComponent, trace, debug, info, warn, error, level_tag, component_tag,
  general, core, ipc, scope, heuristics, preset, config, pacer, kwin, app_rules, daemon, perf,
  stderr_fd, to_file, to_stderr, whole_line, write_if, log_msg_v,
}
use loginext.Prelude.{
  ◌+◌, ◌≤◌, ◌≡◌, refl, ap, ◌++◌, length, length-append, length-take, take, take_all, Bytes, codes,
  arith,
}

length-level_tag : (lvl : LogLevel) → length (level_tag lvl) ≡ 3
length-level_tag trace = refl
length-level_tag debug = refl
length-level_tag info = refl
length-level_tag warn = refl
length-level_tag error = refl

length-component_tag : (c : LogComponent) → length (component_tag c) ≤ 6
length-component_tag general = omega arith
length-component_tag core = omega arith
length-component_tag ipc = omega arith
length-component_tag scope = omega arith
length-component_tag heuristics = omega arith
length-component_tag preset = omega arith
length-component_tag config = omega arith
length-component_tag pacer = omega arith
length-component_tag kwin = omega arith
length-component_tag app_rules = omega arith
length-component_tag daemon = omega arith
length-component_tag perf = omega arith

length-whole_line :
    (lvl : LogLevel) (comp : LogComponent) (ts body : Bytes)
    → length (whole_line lvl comp ts body) ≤ length ts + length body + 18
length-whole_line lvl comp ts body =
    let a = ts ++ codes " [" in
    let b = a ++ level_tag lvl in
    let c = b ++ codes "] [" in
    let d = c ++ component_tag comp in
    let e = d ++ codes "] " in
    let f = e ++ body in
    omega (
      arith,
      length-append ts (codes " ["),
      length-append a (level_tag lvl),
      length-append b (codes "] ["),
      length-append c (component_tag comp),
      length-append d (codes "] "),
      length-append e body,
      length-append f (codes "\n"),
      length-level_tag lvl,
      length-component_tag comp,
    )

-- For any level, component and message, and a time of at most 31 bytes, which its buffer holds: only the
-- message is cut, to 1023 bytes. Each sink that takes the level gets the whole line, with its newline,
-- the file before the standard error.
pub log_msg_v_whole :
    (st : LogState) (lvl : LogLevel) (comp : LogComponent) (ts text : Bytes)
    → length ts ≤ 31
    → let line = whole_line lvl comp ts (take 1023 text) in
      log_msg_v st lvl comp ts text
      ≡ write_if (to_file st lvl) st.fd line ++ write_if (to_stderr st lvl) stderr_fd line
unfolding log_msg_v
log_msg_v_whole st lvl comp ts text h =
    let line = whole_line lvl comp ts (take 1023 text) in
    let small : length line ≤ 1103 =
      omega (arith, length-whole_line lvl comp ts (take 1023 text), length-take 1023 text) in
    ap (λ l. write_if (to_file st lvl) st.fd l ++ write_if (to_stderr st lvl) stderr_fd l)
      (take_all 1103 line small)
