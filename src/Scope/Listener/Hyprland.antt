-- ===== src/Scope/Listener/Hyprland.antt =====
-- scope/listener.cpp: the Hyprland backend, `hypr_connect` and `hypr_loop`. What the system answers is
-- an argument; a flag that another thread sets is an answer each time it is loaded.
pub mod Lines
pub mod Buffer
use loginext.Env.{fits}
use loginext.Scope.AppHash.{hash_app}
use loginext.Scope.Listener.{Listener, publish_and_log}
use loginext.Prelude.{
  ℕ, zero, suc, ◌-◌, Bool, true, false, ◌&&◌, ltb, ◌==◌, if◌then◌else◌, Option, none, some, ℤ,
  negsuc, is_negative, List, [], ◌∷◌, ◌++◌, length, take, Bytes, codes, starts_with,
}

abbrev pub drop : ℕ → Bytes → Bytes
drop zero s = s
drop (suc n) [] = []
drop (suc n) (c ∷ s) = drop n s

-- The C string at the start of a buffer
abbrev pub until_nul : Bytes → Bytes
until_nul [] = []
until_nul (c ∷ s) = let rest = until_nul s in if c == 0 then [] else c ∷ rest

abbrev pub hypr_path : Bytes → Bytes
hypr_path his = codes "/tmp/hypr/" ++ his ++ codes "/.socket2.sock"

pub data Request : Type 0 where
  socket close : ℤ → Request
  connect : ℤ → Bytes → Request

-- `connect` and the return behind it
abbrev pub connected : ℤ → Bytes → Bool → ℤ × List Request
connected fd path true = (fd, socket fd ∷ connect fd path ∷ [])
connected fd path false = (negsuc 0, socket fd ∷ connect fd path ∷ close fd ∷ [])

-- The arguments after the instance are what `socket` gives and whether `connect` succeeds. The path
-- is cut to the 108 bytes of `sun_path`.
unfoldable pub hypr_connect : Bytes → ℤ → Bool → ℤ × List Request
hypr_connect his fd ok =
    if fits 256 (hypr_path his)
    then if is_negative fd then (negsuc 0, []) else connected fd (take 107 (hypr_path his)) ok
    else (negsuc 0, [])

abbrev pub tag : Bytes
tag = codes "activewindow>>"

abbrev pub tag_len : ℕ
tag_len = 14

-- The class, which ends at the first comma.
abbrev pub until_comma : Bytes → Bytes
until_comma [] = []
until_comma (c ∷ s) = let rest = until_comma s in if c == b',' then [] else c ∷ rest

-- The size of `klass` less one
abbrev pub klass_max : ℕ
klass_max = 127

abbrev pub class_hash : Bytes → ℕ
class_hash [] = 0
class_hash (c ∷ s) = hash_app (c ∷ s)

abbrev pub publish_class : Listener → Bytes → Listener
publish_class l cls =
    let klass = until_nul (take klass_max cls) in
    (publish_and_log l (class_hash cls) (codes "hyprland") (some klass) (some klass)).0

-- A whole line
unfoldable pub on_line : Listener → Bytes → Listener
on_line l line =
    if ltb tag_len (length line) && starts_with tag line
    then publish_class l (until_comma (drop tag_len line))
    else l

-- The loop over the buffer. The bytes from `scan` on that were passed are `line`, and what follows is
-- the argument after it; at the end `line` is what remains.
unfoldable pub drain_lines : Listener → Bytes → Bytes → Listener × Bytes
drain_lines l line [] = (l, line)
drain_lines l line (c ∷ s) = elim (c == b'\n') [
  | false ↦ drain_lines l (line ++ c ∷ []) s
  | true ↦ drain_lines (on_line l line) [] s
]

abbrev pub buf_size : ℕ
buf_size = 1024

-- A buffer that is full without a newline is dropped.
abbrev pub keep_rest : Bytes → Bytes
keep_rest rest = if length rest == buf_size then [] else rest

-- What `read` returned, for the room that the buffer has.
unfoldable pub hypr_read : Listener → Bytes → Bytes → Listener × Bytes
hypr_read l buf bytes =
    let (l', rest) = drain_lines l [] (buf ++ take (buf_size - length buf) bytes) in
    (l', keep_rest rest)

-- What `select` gives: EINTR, another error, or the ends that are readable. If the pipe is, the flag
-- that is loaded after it; if the socket is, the bytes that `read` returns, none for its end or an error.
pub data Select : Type 0 where
  eintr failed : Select
  ready : Option Bool → Option Bytes → Select

-- A turn of the loop, with the flag that its test loads
pub record Turn : Type 0 where
  pub stop : Bool
  pub select : Select

-- What a turn leaves: the buffer for the next, or the end of the loop, which closes the socket.
abbrev pub Outcome : Type 0
Outcome = Listener × Option Bytes

abbrev pub read_socket : Listener → Bytes → Option Bytes → Outcome
read_socket l buf none = (l, some buf)
read_socket l buf (some []) = (l, none)
read_socket l buf (some (b ∷ bs)) = let (l', rest) = hypr_read l buf (b ∷ bs) in (l', some rest)

abbrev pub selected : Listener → Bytes → Select → Outcome
selected l buf eintr = (l, some buf)
selected l buf failed = (l, none)
selected l buf (ready (some true) sock) = (l, none)
selected l buf (ready (some false) sock) = read_socket l buf sock
selected l buf (ready none sock) = read_socket l buf sock

unfoldable pub hypr_turn : Listener → Bytes → Turn → Outcome
hypr_turn l buf t = if t.stop then (l, none) else selected l buf t.select

abbrev pub next_turn : (Listener → Bytes → Outcome) → Outcome → Outcome
next_turn loop (l, none) = (l, none)
next_turn loop (l, some buf) = loop l buf

unfoldable pub hypr_loop : Listener → Bytes → List Turn → Outcome
hypr_loop l buf [] = (l, some buf)
hypr_loop l buf (t ∷ ts) = next_turn (λ l' buf'. hypr_loop l' buf' ts) (hypr_turn l buf t)
