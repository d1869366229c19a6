-- ===== src/Tests/Ipc.antt =====
-- Requests on the control socket, and instances of the theorems on it.
use loginext.Config.Settings.{default_settings}
use loginext.Config.Loader.{match_lit}
use loginext.Config.Profile.{mode_name}
use loginext.Ipc.Dispatch.Escape.{read_json, read_json-json_escape_into}
use loginext.Ipc.Dispatch.Fits.{Sendable, dispatch_with_fd-Sendable}
use loginext.Ipc.Request.{find_after, skip_blanks, until_quote, extract_string, strip_cr}
use loginext.Ipc.Dispatch.{
  Response, respond, bool_str, DispatchCtx, json_escape_into, run_command, dispatch_with_fd,
}
use loginext.Ipc.Server.Accept.{Accepts, on_accept-Accepts}
use loginext.Ipc.Server.Framing.{next_buffer, dispatch_lines_split}
use loginext.Ipc.Server.Slots.{IsValid, fresh-IsValid}
use loginext.Ipc.Server.{
  IpcServer, fresh, Accepted, connection, interrupted, would_block, on_accept, dispatch_lines,
  write, write_line,
}
use loginext.Presets.{preset_id_str}
use loginext.Prelude.{
  ◌≡◌, ◌++◌, refl, true, false, none, some, ℤ, pos, negsuc, List, [], ◌∷◌, Bytes, codes, arith,
}

abbrev ctx : DispatchCtx
ctx = record {
  settings = default_settings;
  reload_flag = false;
  reload_pending_fd = negsuc 0;
  scope = none;
  rules = none;
  stop_flag = false;
}

get_settings_response :
    dispatch_with_fd (codes "{ \"cmd\" : \"get_settings\" }\r") 1024 ctx (pos 7) ≡ (
      ctx,
      respond (
          codes
            "{\"ok\":true,\"mode\":\"medium\",\"invert_hwheel\":true,\"active_preset\":\"tab_nav\"}"),
    )
unfolding dispatch_with_fd strip_cr extract_string find_after match_lit skip_blanks until_quote
    run_command bool_str mode_name preset_id_str
get_settings_response = refl

reload_deferred :
    dispatch_with_fd (codes "{\"cmd\":\"reload\"}") 1024 ctx (pos 7)
    ≡ (record ctx { reload_flag = true; reload_pending_fd = pos 7 }, Response.silent)
unfolding dispatch_with_fd strip_cr extract_string find_after match_lit skip_blanks until_quote
    run_command
reload_deferred = refl

dispatch_with_fd-Sendable_example :
    Sendable (dispatch_with_fd (codes "{\"cmd\":\"get_active_app\"}") 1024 ctx (pos 7)).1
dispatch_with_fd-Sendable_example =
    dispatch_with_fd-Sendable (codes "{\"cmd\":\"get_active_app\"}") ctx (pos 7)

abbrev odd_name : Bytes
odd_name = codes "a \"b\\c"

read_json-json_escape_into_example :
    read_json (json_escape_into 256 odd_name ++ b'"' ∷ codes "}") ≡ some (odd_name, codes "}")
read_json-json_escape_into_example =
    read_json-json_escape_into 256 odd_name (codes "}") (omega arith) refl

-- A handler that echoes each line and counts the lines.
abbrev echo : List Bytes → Bytes → ℤ → List Bytes × Response
echo seen line fd = (line ∷ seen, respond line)

echo_lines : dispatch_lines echo [] (pos 7) [] (codes "ab\nc\nde") ≡ (
  codes "c" ∷ codes "ab" ∷ [],
  write (pos 7) (codes "ab\n") ∷ write (pos 7) (codes "c\n") ∷ [],
  some (codes "de"),
)
unfolding dispatch_lines write_line
echo_lines = refl

dispatch_lines_split_example :
    next_buffer echo (pos 7) (dispatch_lines echo [] (pos 7) [] (codes "ab\nc")) (codes "d\ne")
    ≡ dispatch_lines echo [] (pos 7) [] (codes "ab\ncd\ne")
dispatch_lines_split_example = dispatch_lines_split echo [] (pos 7) (codes "ab\nc") (codes "d\ne")

abbrev arrivals : List Accepted
arrivals =
    connection (pos 10) true
    ∷ interrupted
    ∷ connection (pos 11) false
    ∷ connection (pos 12) true
    ∷ connection (pos 13) true
    ∷ connection (pos 14) true
    ∷ connection (pos 15) true
    ∷ would_block
    ∷ []

on_accept-Accepts_example : Accepts fresh arrivals (on_accept fresh arrivals)
on_accept-Accepts_example =
    on_accept-Accepts fresh arrivals fresh-IsValid
      (refl, (refl, (refl, (refl, (refl, (refl, tt))))))

-- The server with one client.
abbrev one_client : IpcServer
one_client = (on_accept fresh (connection (pos 10) true ∷ would_block ∷ [])).0

one_client-IsValid : IsValid one_client
one_client-IsValid =
    let a =
      on_accept-Accepts fresh (connection (pos 10) true ∷ would_block ∷ []) fresh-IsValid
        (refl, tt) in
    a.valid
