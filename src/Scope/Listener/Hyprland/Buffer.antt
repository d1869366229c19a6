-- ===== src/Scope/Listener/Hyprland/Buffer.antt =====
-- The read buffer of `hypr_loop`, by the framing of the control socket.
use loginext.Ipc.Dispatch.{Response}
use loginext.Ipc.Server.Framing.{
  dispatch_lines_split, dispatch_lines_newline, dispatch_lines_byte, next_buffer,
}
use loginext.Ipc.Server.{Outcome, dispatch_lines}
use loginext.Scope.Listener.Hyprland.{on_line, drain_lines, buf_size, hypr_read}
use loginext.Scope.Listener.{Listener}
use loginext.Prelude.{
  ℕ, ◌+◌, ◌-◌, ◌≤◌, ◌<◌, ◌≡◌, refl, sym, ap, ◌∙◌, true, false, ◌==◌, none, some, ℤ, negsuc, [], ◌∷◌,
  ◌++◌, append_assoc, length, length-append, length-take, take_all, take, Bytes, Bool-cases, inl,
  inr, arith,
}

-- The handler of a line, as the control socket's loop takes one.
abbrev handler : Listener → Bytes → ℤ → Listener × Response
handler l line fd = (on_line l line, Response.silent)

abbrev no_fd : ℤ
no_fd = negsuc 0

abbrev as_outcome : Listener × Bytes → Outcome Listener
as_outcome (l, rest) = (l, [], some rest)

pub drain_lines_newline :
    (l : Listener) (line : Bytes) (c : ℕ) (s : Bytes)
    → (c == b'\n') ≡ true
    → drain_lines l line (c ∷ s) ≡ drain_lines (on_line l line) [] s
unfolding drain_lines
drain_lines_newline l line c s e = rw (drain_lines, e)

pub drain_lines_byte :
    (l : Listener) (line : Bytes) (c : ℕ) (s : Bytes)
    → (c == b'\n') ≡ false
    → drain_lines l line (c ∷ s) ≡ drain_lines l (line ++ c ∷ []) s
unfolding drain_lines
drain_lines_byte l line c s e = rw (drain_lines, e)

-- The loop over the buffer is that of the control socket, with a handler that never answers.
drain_lines-dispatch_lines :
    (l : Listener) (line s : Bytes)
    → dispatch_lines handler l no_fd line s ≡ as_outcome (drain_lines l line s)
unfolding dispatch_lines drain_lines
drain_lines-dispatch_lines l line [] = refl
drain_lines-dispatch_lines l line (c ∷ s) = elim (Bool-cases (c == b'\n')) [
  | inl e ↦
      dispatch_lines_newline handler l no_fd line c s e
      ∙ drain_lines-dispatch_lines (on_line l line) [] s
      ∙ ap as_outcome (sym (drain_lines_newline l line c s e))
  | inr e ↦
      dispatch_lines_byte handler l no_fd line c s e
      ∙ drain_lines-dispatch_lines l (line ++ c ∷ []) s
      ∙ ap as_outcome (sym (drain_lines_byte l line c s e))
]

abbrev from_outcome : Outcome Listener → Listener × Bytes
from_outcome (l, es, none) = (l, [])
from_outcome (l, es, some rest) = (l, rest)

-- Bytes in two parts give the same lines.
drain_lines_split :
    (l : Listener) (a b : Bytes)
    → (let (l', rest) = drain_lines l [] a in drain_lines l' [] (rest ++ b))
      ≡ drain_lines l [] (a ++ b)
drain_lines_split l a b = ap from_outcome (
    sym (both (drain_lines l [] a))
    ∙ sym (ap (λ o. next_buffer handler no_fd o b) (drain_lines-dispatch_lines l [] a))
    ∙ dispatch_lines_split handler l no_fd a b
    ∙ drain_lines-dispatch_lines l [] (a ++ b))
  where
    both :
        (o : Listener × Bytes)
        → next_buffer handler no_fd (as_outcome o) b ≡ as_outcome (drain_lines o.0 [] (o.1 ++ b))
    both (l', rest) =
        ap (λ (p : Outcome Listener). (p.0, [] ++ p.1, p.2))
          (drain_lines-dispatch_lines l' [] (rest ++ b))

length-drain_lines :
    (l : Listener) (line s : Bytes) → length (drain_lines l line s).1 ≤ length line + length s
unfolding drain_lines
length-drain_lines l line [] = omega arith
length-drain_lines l line (c ∷ s) = elim (Bool-cases (c == b'\n')) [
  | inl e ↦
      rw (drain_lines_newline l line c s e)
        (omega (arith, length-drain_lines (on_line l line) [] s))
  | inr e ↦
      rw (drain_lines_byte l line c s e)
        (omega (arith, length-drain_lines l (line ++ c ∷ []) s, length-append line (c ∷ [])))
]

-- Whatever arrives, there is room in the buffer after a read: the next one never asks for 0 bytes, whose
-- answer would be taken for the end of the connection.
pub hypr_read-lt :
    (l : Listener) (buf bytes : Bytes)
    → length buf < buf_size
    → length (hypr_read l buf bytes).1 < buf_size
unfolding hypr_read
hypr_read-lt l buf bytes h =
    let got = take (buf_size - length buf) bytes in
    let rest = (drain_lines l [] (buf ++ got)).1 in
    let small : length rest ≤ buf_size = omega (
      arith,
      length-drain_lines l [] (buf ++ got),
      length-append buf got,
      length-take (buf_size - length buf) bytes,
    ) in
    ground arith

-- A read whose bytes fit is the loop over the lines alone.
hypr_read_fits :
    (l : Listener) (buf bytes : Bytes)
    → length buf + length bytes < buf_size
    → hypr_read l buf bytes ≡ drain_lines l [] (buf ++ bytes)
unfolding hypr_read
hypr_read_fits l buf bytes h =
    let e : take (buf_size - length buf) bytes ≡ bytes = take_all _ bytes (omega arith) in
    let o = drain_lines l [] (buf ++ bytes) in
    let small : length o.1 < buf_size =
      omega (arith, length-drain_lines l [] (buf ++ bytes), length-append buf bytes) in
    let ne : (length o.1 == buf_size) ≡ false = ground arith in rw (e, ne) refl

-- As long as the bytes fit into the buffer, it does not matter how they arrive: two reads leave the
-- same published focus and the same rest of a line as one read of all the bytes.
pub hypr_read_split :
    (l : Listener) (buf a b : Bytes)
    → length buf + (length a + length b) < buf_size
    → (let (l', buf') = hypr_read l buf a in hypr_read l' buf' b) ≡ hypr_read l buf (a ++ b)
hypr_read_split l buf a b h =
    let o = drain_lines l [] (buf ++ a) in
    let small : length o.1 ≤ length buf + length a =
      omega (arith, length-drain_lines l [] (buf ++ a), length-append buf a) in
    let all : length buf + length (a ++ b) < buf_size = omega (arith, length-append a b) in
    rw
      (
        hypr_read_fits l buf a (omega arith),
        hypr_read_fits o.0 o.1 b (omega arith),
        hypr_read_fits l buf (a ++ b) all,
      )
      (drain_lines_split l (buf ++ a) b ∙ ap (drain_lines l []) (append_assoc buf a b))
