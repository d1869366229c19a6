-- ===== src/Scope/Listener/Thread/Bounds.antt =====
-- The bounds of the published focus, and that the Hyprland backend keeps them.
use loginext.Scope.AppHash.{hash_app_lem}
use loginext.Scope.Listener.Hyprland as Hyprland
use loginext.Scope.Listener.Hyprland.Buffer.{drain_lines_newline, drain_lines_byte}
use loginext.Scope.Listener.Hyprland.{
  class_hash, publish_class, on_line, drain_lines, hypr_read, read_socket, selected, hypr_turn,
  next_turn, hypr_loop,
}
use loginext.Scope.Listener.Published.{key_hash}
use loginext.Scope.Listener.{
  Listener, Logged, first_text, intro_name_max, intro_source_max, publish_and_log,
}
use loginext.Prelude.{
  ℕ, ◌-◌, ◌^◌, ◌≤◌, ◌<◌, true, false, ◌&&◌, ◌==◌, ltb, Option, none, some, List, [], ◌∷◌, ◌++◌,
  length, length-take, take, Bytes, codes, starts_with, if_keeps, Bool-cases, inl, inr, arith,
}

-- A hash of 32 bits, and texts that fit their buffers with the NUL.
pub record InBounds (l : Listener) : Type 0 where
  pub hash : l.active_app_hash < 2 ^ 32
  pub name : length l.intro_name ≤ 127
  pub source : length l.intro_source ≤ 15

pub publish_and_log-InBounds :
    (l : Listener) (h : ℕ) (src : Bytes) (i k : Option Bytes)
    → h < 2 ^ 32
    → InBounds (publish_and_log l h src i k).0
unfolding publish_and_log
publish_and_log-InBounds l h src i k lt =
    let l' = record l {
      intro_name = take intro_name_max (first_text i k);
      intro_source = take intro_source_max src;
      active_app_hash = h;
    } in
    let v : InBounds l' = record {
      hash = lt;
      name = length-take intro_name_max (first_text i k);
      source = length-take intro_source_max src;
    } in
    if_keeps (λ (out : Listener × Logged). InBounds out.0) (l.active_app_hash == h) v v

pub key_hash-lt : (s : Bytes) → key_hash s < 2 ^ 32
key_hash-lt [] = omega arith
key_hash-lt (c ∷ s) = (hash_app_lem (c ∷ s)).2

class_hash-lt : (s : Bytes) → class_hash s < 2 ^ 32
class_hash-lt [] = omega arith
class_hash-lt (c ∷ s) = (hash_app_lem (c ∷ s)).2

on_line-InBounds : (l : Listener) (line : Bytes) → InBounds l → InBounds (on_line l line)
unfolding on_line
on_line-InBounds l line v =
    let cls = Hyprland.until_comma (Hyprland.drop Hyprland.tag_len line) in
    if_keeps InBounds (ltb Hyprland.tag_len (length line) && starts_with Hyprland.tag line)
      (publish_and_log-InBounds l (class_hash cls) (codes "hyprland") _ _ (class_hash-lt cls)) v

drain_lines-InBounds :
    (l : Listener) (line s : Bytes) → InBounds l → InBounds (drain_lines l line s).0
unfolding drain_lines
drain_lines-InBounds l line [] v = v
drain_lines-InBounds l line (c ∷ s) v = elim (Bool-cases (c == b'\n')) [
  | inl e ↦
      rw (drain_lines_newline l line c s e)
        (drain_lines-InBounds (on_line l line) [] s (on_line-InBounds l line v))
  | inr e ↦ rw (drain_lines_byte l line c s e) (drain_lines-InBounds l (line ++ c ∷ []) s v)
]

read_socket-InBounds :
    (l : Listener) (buf : Bytes) (o : Option Bytes) → InBounds l → InBounds (read_socket l buf o).0
unfolding hypr_read
read_socket-InBounds l buf none v = v
read_socket-InBounds l buf (some []) v = v
read_socket-InBounds l buf (some (b ∷ bs)) v =
    drain_lines-InBounds l [] (buf ++ take (Hyprland.buf_size - length buf) (b ∷ bs)) v

hypr_turn-InBounds :
    (l : Listener) (buf : Bytes) (t : Hyprland.Turn) → InBounds l → InBounds (hypr_turn l buf t).0
unfolding hypr_turn
hypr_turn-InBounds l buf t v =
    if_keeps (λ (out : Hyprland.Outcome). InBounds out.0) t.stop v (of_select t.select)
  where
    of_select : (x : Hyprland.Select) → InBounds (selected l buf x).0
    of_select Hyprland.eintr = v
    of_select Hyprland.failed = v
    of_select (Hyprland.ready (some true) sock) = v
    of_select (Hyprland.ready (some false) sock) = read_socket-InBounds l buf sock v
    of_select (Hyprland.ready none sock) = read_socket-InBounds l buf sock v

hypr_next-InBounds :
    (loop : Listener → Bytes → Hyprland.Outcome) (out : Hyprland.Outcome)
    → ((l : Listener) (buf : Bytes) → InBounds l → InBounds (loop l buf).0)
    → InBounds out.0
    → InBounds (next_turn loop out).0
hypr_next-InBounds loop (l, none) h v = v
hypr_next-InBounds loop (l, some buf) h v = h l buf v

pub hypr_loop-InBounds :
    (l : Listener) (buf : Bytes) (ts : List Hyprland.Turn)
    → InBounds l
    → InBounds (hypr_loop l buf ts).0
unfolding hypr_loop
hypr_loop-InBounds l buf [] v = v
hypr_loop-InBounds l buf (t ∷ ts) v =
    hypr_next-InBounds (λ l' buf'. hypr_loop l' buf' ts) (hypr_turn l buf t)
      (λ l' buf' v'. hypr_loop-InBounds l' buf' ts v') (hypr_turn-InBounds l buf t v)
