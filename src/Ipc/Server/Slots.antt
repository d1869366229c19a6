-- ===== src/Ipc/Server/Slots.antt =====
-- The client slots over reads and closes.
use loginext.Ipc.Dispatch.{Response, respond}
use loginext.Ipc.Server.Framing.{
  no_newline, Rest, dispatch_lines-Rest, dispatch_lines_newline, dispatch_lines_byte,
}
use loginext.Ipc.Server.{
  ClientSlot, IpcServer, free_slot, fresh, Effect, find_slot_by_fd, client, with_client,
  close_client, Outcome, answer, dispatch_lines, keep_rest, received, read_client,
  on_client_readable_fd, ReadResult, bytes, eof, try_again, broken, client_recv_buf,
}
use loginext.Prelude.{
  length-take, ℕ, zero, suc, ◌+◌, ◌-◌, ◌≤◌, ◌≡◌, refl, ◌∙◌, true, ◌==◌, Option, none, some, ℤ,
  is_negative, List, [], ◌∷◌, ◌++◌, length, length-append, length-set, get_or, set, take, Bytes,
  Bool-cases, inl, inr, arith,
}

pub record IsFramed (c : ClientSlot) : Type 0 where
  pub open_line : no_newline c.recv ≡ true
  pub fits : length c.recv ≤ 1024

-- Four slots, each of which holds the start of one line that fits in its buffer.
pub record IsValid (s : IpcServer) : Type 0 where
  pub width : length s.clients ≡ 4
  pub framed : (i : ℕ) → IsFramed (client s i)

pub fresh-IsValid : IsValid fresh
fresh-IsValid = record { width = refl; framed = slots }
  where
    slots : (i : ℕ) → IsFramed (client fresh i)
    slots zero = record { open_line = refl; fits = omega arith }
    slots (suc zero) = record { open_line = refl; fits = omega arith }
    slots (suc (suc zero)) = record { open_line = refl; fits = omega arith }
    slots (suc (suc (suc zero))) = record { open_line = refl; fits = omega arith }
    slots (suc (suc (suc (suc i)))) = record { open_line = refl; fits = omega arith }

get_or-set_all :
    (P : ClientSlot → Type 0) (cs : List ClientSlot) (i : ℕ) (v : ClientSlot)
    → P v
    → ((j : ℕ) → P (get_or cs j free_slot))
    → (j : ℕ) → P (get_or (set cs i v) j free_slot)
get_or-set_all P [] i v p h j = h j
get_or-set_all P (c ∷ cs) zero v p h zero = p
get_or-set_all P (c ∷ cs) zero v p h (suc j) = h (suc j)
get_or-set_all P (c ∷ cs) (suc i) v p h zero = h zero
get_or-set_all P (c ∷ cs) (suc i) v p h (suc j) = get_or-set_all P cs i v p (λ k. h (suc k)) j

pub with_client-IsValid :
    (s : IpcServer) (i : ℕ) (c : ClientSlot) → IsValid s → IsFramed c → IsValid (with_client s i c)
with_client-IsValid s i c v f = record {
  width = length-set s.clients i c ∙ v.width;
  framed = get_or-set_all IsFramed s.clients i c f v.framed;
}

close_client-IsValid : (s : IpcServer) (i : ℕ) → IsValid s → IsValid (close_client s i).0
unfolding close_client
close_client-IsValid s i v = elim (Bool-cases (is_negative (client s i).fd)) [
  | inl e ↦ rw e v
  | inr e ↦
      rw e (with_client-IsValid s i free_slot v (record { open_line = refl; fits = omega arith }))
]

Within : ℕ → Option Bytes → Type 0
Within n none = Unit
Within n (some rest) = length rest ≤ n

module _ {ℓ} {H : Type ℓ} (handler : H → Bytes → ℤ → H × Response) where
  answer-Within :
      (loop : H → Outcome H) (fd : ℤ) (x : H × Response) (n : ℕ)
      → ((h : H) → Within n (loop h).2)
      → Within n (answer loop fd x).2
  unfolding Within
  answer-Within loop fd (h, Response.drop) n e = tt
  answer-Within loop fd (h, Response.silent) n e = e h
  answer-Within loop fd (h, respond r) n e = e h

  Within-mono : (n m : ℕ) (o : Option Bytes) → n ≤ m → Within n o → Within m o
  unfolding Within
  Within-mono n m none le p = tt
  Within-mono n m (some r) le p = omega arith

  dispatch_lines-Within :
      (h : H) (fd : ℤ) (line a : Bytes)
      → Within (length line + length a) (dispatch_lines handler h fd line a).2
  unfolding dispatch_lines Within
  dispatch_lines-Within h fd line [] = omega arith
  dispatch_lines-Within h fd line (c ∷ a) = elim (Bool-cases (c == b'\n')) [
    | inl e ↦ rw (dispatch_lines_newline handler h fd line c a e) (
        answer-Within (λ h'. dispatch_lines handler h' fd [] a) fd (handler h line fd) _
          (λ h'. Within-mono _ _ _ (omega arith) (dispatch_lines-Within h' fd [] a)))
    | inr e ↦ rw (dispatch_lines_byte handler h fd line c a e) (
        Within-mono _ _ _ (omega (arith, length-append line (c ∷ [])))
          (dispatch_lines-Within h fd (line ++ c ∷ []) a))
  ]

  keep_rest-IsValid :
      (s : IpcServer) (i : ℕ) (o : Outcome H)
      → IsValid s
      → Rest o.2
      → Within 1024 o.2
      → IsValid (keep_rest handler s i o).0
  unfolding Within
  keep_rest-IsValid s i (h, es, none) v p q = close_client-IsValid s i v
  keep_rest-IsValid s i (h, es, some rest) v p q =
      with_client-IsValid s i _ v (record { open_line = p; fits = q })

  received-IsValid :
      (s : IpcServer) (h : H) (i : ℕ) (r : ReadResult)
      → IsValid s
      → IsValid (received handler s h i r).0
  received-IsValid s h i (bytes []) v = close_client-IsValid s i v
  received-IsValid s h i (bytes (b ∷ bs)) v =
      let c = client s i in
      let framed = v.framed i in
      let room = client_recv_buf - length c.recv in
      let buffer = c.recv ++ take room (b ∷ bs) in
      keep_rest-IsValid s i (dispatch_lines handler h c.fd [] buffer) v
        (dispatch_lines-Rest handler h c.fd [] buffer refl)
        (Within-mono (length {A = ℕ} [] + length buffer) 1024 _
          (omega (
            arith,
            framed.fits,
            length-append c.recv (take room (b ∷ bs)),
            length-take room (b ∷ bs),
          ))
          (dispatch_lines-Within h c.fd [] buffer))
  received-IsValid s h i eof v = close_client-IsValid s i v
  received-IsValid s h i try_again v = v
  received-IsValid s h i broken v = close_client-IsValid s i v

  read_client-IsValid :
      (s : IpcServer) (h : H) (i : ℕ) (r : ReadResult)
      → IsValid s
      → IsValid (read_client handler s h i r).0
  unfolding read_client
  read_client-IsValid s h i r v =
      elim (Bool-cases (client_recv_buf - length (client s i).recv == 0)) [
        | inl e ↦ rw e (close_client-IsValid s i v)
        | inr e ↦ rw e (received-IsValid s h i r v)
      ]

  -- For any handler, whatever descriptor is readable and whatever `read` returns, the slots stay valid:
  -- each buffer holds at most 1024 bytes and no complete line.
  pub on_client_readable_fd-IsValid :
      (s : IpcServer) (h : H) (fd : ℤ) (r : ReadResult)
      → IsValid s
      → IsValid (on_client_readable_fd handler s h fd r).0
  unfolding on_client_readable_fd
  on_client_readable_fd-IsValid s h fd r v = found (find_slot_by_fd s fd)
    where
      found :
          (o : Option ℕ)
          → IsValid
              (elim o as (λ x. IpcServer × H × List Effect) [
                | none ↦ (s, h, [])
                | some i ↦ read_client handler s h i r
              ]).0
      found none = v
      found (some i) = read_client-IsValid s h i r v
