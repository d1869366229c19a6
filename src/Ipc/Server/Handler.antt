-- ===== src/Ipc/Server/Handler.antt =====
-- What each call of the handler keeps, a read keeps.
use loginext.Ipc.Dispatch.{Response, respond}
use loginext.Ipc.Server.Framing.{dispatch_lines_newline, dispatch_lines_byte}
use loginext.Ipc.Server.{
  IpcServer, Effect, find_slot_by_fd, client, Outcome, answer, dispatch_lines, keep_rest, received,
  read_client, on_client_readable_fd, ReadResult, bytes, eof, try_again, broken, client_recv_buf,
}
use loginext.Prelude.{
  ℕ, ◌-◌, ◌==◌, Option, none, some, ℤ, List, [], ◌∷◌, ◌++◌, length, take, Bytes, Bool-cases, inl,
  inr,
}

module _ {ℓ κ} {H : Type ℓ} (handler : H → Bytes → ℤ → H × Response) (P : H → Type κ)
    (keeps : (h : H) (line : Bytes) (fd : ℤ) → P h → P (handler h line fd).0) where
  answer_keeps :
      (loop : H → Outcome H) (fd : ℤ) (x : H × Response)
      → P x.0
      → ((h : H) → P h → P (loop h).0)
      → P (answer loop fd x).0
  answer_keeps loop fd (h, Response.drop) p e = p
  answer_keeps loop fd (h, Response.silent) p e = e h p
  answer_keeps loop fd (h, respond r) p e = e h p

  dispatch_lines_keeps :
      (h : H) (fd : ℤ) (line s : Bytes) → P h → P (dispatch_lines handler h fd line s).0
  unfolding dispatch_lines
  dispatch_lines_keeps h fd line [] p = p
  dispatch_lines_keeps h fd line (c ∷ s) p = elim (Bool-cases (c == b'\n')) [
    | inl e ↦ rw (dispatch_lines_newline handler h fd line c s e) (
        answer_keeps (λ h'. dispatch_lines handler h' fd [] s) fd (handler h line fd)
          (keeps h line fd p) (λ h' p'. dispatch_lines_keeps h' fd [] s p'))
    | inr e ↦
        rw (dispatch_lines_byte handler h fd line c s e)
          (dispatch_lines_keeps h fd (line ++ c ∷ []) s p)
  ]

  keep_rest_keeps : (s : IpcServer) (i : ℕ) (o : Outcome H) → P o.0 → P (keep_rest handler s i o).1
  keep_rest_keeps s i (h, es, none) p = p
  keep_rest_keeps s i (h, es, some rest) p = p

  received_keeps :
      (s : IpcServer) (h : H) (i : ℕ) (r : ReadResult) → P h → P (received handler s h i r).1
  received_keeps s h i (bytes []) p = p
  received_keeps s h i (bytes (b ∷ bs)) p =
      let c = client s i in
      let buffer = c.recv ++ take (client_recv_buf - length c.recv) (b ∷ bs) in
      keep_rest_keeps s i (dispatch_lines handler h c.fd [] buffer)
        (dispatch_lines_keeps h c.fd [] buffer p)
  received_keeps s h i eof p = p
  received_keeps s h i try_again p = p
  received_keeps s h i broken p = p

  read_client_keeps :
      (s : IpcServer) (h : H) (i : ℕ) (r : ReadResult) → P h → P (read_client handler s h i r).1
  unfolding read_client
  read_client_keeps s h i r p =
      elim (Bool-cases (client_recv_buf - length (client s i).recv == 0)) [
        | inl e ↦ rw e p
        | inr e ↦ rw e (received_keeps s h i r p)
      ]

  pub on_client_readable_fd_keeps :
      (s : IpcServer) (h : H) (fd : ℤ) (r : ReadResult)
      → P h
      → P (on_client_readable_fd handler s h fd r).1
  unfolding on_client_readable_fd
  on_client_readable_fd_keeps s h fd r p = found (find_slot_by_fd s fd)
    where
      found :
          (o : Option ℕ)
          → P
              (elim o as (λ x. IpcServer × H × List Effect) [
                | none ↦ (s, h, [])
                | some i ↦ read_client handler s h i r
              ]).1
      found none = p
      found (some i) = read_client_keeps s h i r p
