-- ===== src/Ipc/Server.antt =====
-- ipc/server.cpp: the client slots and the framing of lines. What the kernel answers to `accept4`,
-- `epoll_ctl` and `read` is an argument; what is asked of it is a list of effects.
pub mod Framing
pub mod Slots
pub mod Accept
pub mod Handler
pub mod Setup
pub mod Lifetime
pub mod Shutdown
use loginext.Ipc.Dispatch.{Response, respond}
use loginext.Prelude.{
  ℕ, zero, suc, ◌+◌, ◌-◌, Bool, true, false, ◌&&◌, ◌||◌, leb, ◌==◌, if◌then◌else◌, Option, none,
  some, ℤ, pos, negsuc, eqb_ℤ, is_negative, List, [], ◌∷◌, ◌++◌, length, get_or, set, replicate,
  take, Bytes,
}

abbrev pub max_clients : ℕ
max_clients = 4

abbrev pub client_recv_buf : ℕ
client_recv_buf = 1024

abbrev pub response_buf : ℕ
response_buf = 1024

-- `recv` is the first `recv_len` bytes of `recv_buf`.
pub record ClientSlot : Type 0 where
  pub fd : ℤ
  pub recv : Bytes

pub record IpcServer : Type 0 where
  pub listen_fd : ℤ
  pub sock_path : Bytes
  pub clients : List ClientSlot

abbrev pub free_slot : ClientSlot
free_slot = record { fd = negsuc 0; recv = [] }

-- `IpcServer{}`
abbrev pub fresh : IpcServer
fresh = record { listen_fd = negsuc 0; sock_path = []; clients = replicate max_clients free_slot }

pub data Effect : Type 0 where
  epoll_add epoll_del close : ℤ → Effect
  write : ℤ → Bytes → Effect
  unlink : Bytes → Effect

-- The loop of `find_free_slot`, with `i`
unfoldable pub free_from : List ClientSlot → ℕ → Option ℕ
free_from [] i = none
free_from (c ∷ cs) i = let rest = free_from cs (i + 1) in if is_negative c.fd then some i else rest

abbrev pub find_free_slot : IpcServer → Option ℕ
find_free_slot s = free_from s.clients 0

-- The loop of `find_slot_by_fd`, with `i`
unfoldable pub slot_from : ℤ → List ClientSlot → ℕ → Option ℕ
slot_from fd [] i = none
slot_from fd (c ∷ cs) i =
    let rest = slot_from fd cs (i + 1) in if eqb_ℤ c.fd fd then some i else rest

abbrev pub find_slot_by_fd : IpcServer → ℤ → Option ℕ
find_slot_by_fd s fd = slot_from fd s.clients 0

abbrev pub client : IpcServer → ℕ → ClientSlot
client s i = get_or s.clients i free_slot

abbrev pub with_client : IpcServer → ℕ → ClientSlot → IpcServer
with_client s i c = record s { clients = set s.clients i c }

unfoldable pub close_client : IpcServer → ℕ → IpcServer × List Effect
close_client s i =
    let fd = (client s i).fd in
    if is_negative fd then (s, []) else (with_client s i free_slot, epoll_del fd ∷ close fd ∷ [])

unfoldable pub write_line : ℤ → Bytes → List Effect
write_line fd body = write fd (take response_buf body ++ b'\n' ∷ []) ∷ []

-- The loop of `shutdown_server`
unfoldable pub close_all : List ClientSlot → List ClientSlot × List Effect
close_all [] = ([], [])
close_all (c ∷ cs) =
    let (cs', es) = close_all cs in
    if is_negative c.fd then (c ∷ cs', es) else (record c { fd = negsuc 0 } ∷ cs', close c.fd ∷ es)

abbrev pub unlink_path : Bytes → List Effect
unlink_path [] = []
unlink_path (c ∷ path) = unlink (c ∷ path) ∷ []

unfoldable pub shutdown_server : IpcServer → IpcServer × List Effect
shutdown_server s =
    let (clients, es) = close_all s.clients in
    (
      record {
        listen_fd = if is_negative s.listen_fd then s.listen_fd else negsuc 0;
        sock_path = [];
        clients = clients;
      },
      es
          ++ (if is_negative s.listen_fd then [] else close s.listen_fd ∷ [])
          ++ unlink_path s.sock_path,
    )

unfoldable pub owns_fd : IpcServer → ℤ → Bool
owns_fd s fd =
    if is_negative fd
    then false
    else if eqb_ℤ fd s.listen_fd
    then true
    else (elim (find_slot_by_fd s fd) [ none ↦ false | some i ↦ true ])

-- What `accept4` returns: a descriptor and whether the epoll instance takes it, or an error.
pub data Accepted : Type 0 where
  connection : ℤ → Bool → Accepted
  would_block interrupted failed : Accepted

-- A connection and the slot that is free.
unfoldable pub admit : IpcServer → ℤ → Bool → Option ℕ → IpcServer × List Effect
admit s cfd ok none = (s, close cfd ∷ [])
admit s cfd ok (some i) =
    if ok
    then (with_client s i (record { fd = cfd; recv = [] }), epoll_add cfd ∷ [])
    else (s, epoll_add cfd ∷ close cfd ∷ [])

-- The loop of `on_accept`, on the results of `accept4` that it meets.
unfoldable pub on_accept : IpcServer → List Accepted → IpcServer × List Effect
on_accept s [] = (s, [])
on_accept s (would_block ∷ rs) = (s, [])
on_accept s (interrupted ∷ rs) = on_accept s rs
on_accept s (failed ∷ rs) = (s, [])
on_accept s (connection cfd ok ∷ rs) =
    let (s', es) = admit s cfd ok (find_free_slot s) in
    let (s'', es') = on_accept s' rs in (s'', es ++ es')

-- What `read` returns: bytes, the end of the file, an error that passes (EAGAIN, EINTR), or another.
pub data ReadResult : Type 0 where
  bytes : Bytes → ReadResult
  eof try_again broken : ReadResult

-- What the loop over a buffer gives: the handler's state, the writes, and what remains of the buffer,
-- or `none` when the handler asked to close the client.
abbrev pub Outcome {ℓ} : Type ℓ → Type ℓ
Outcome H = H × List Effect × Option Bytes

-- The handler's answer to a line, and the loop behind it.
abbrev pub answer {ℓ} : {H : Type ℓ} → (H → Outcome H) → ℤ → H × Response → Outcome H
answer loop fd (h, Response.drop) = (h, [], none)
answer loop fd (h, Response.silent) = loop h
answer loop fd (h, respond resp) =
    let (h', es, rest) = loop h in (h', write_line fd resp ++ es, rest)

module _ {ℓ} {H : Type ℓ} (handler : H → Bytes → ℤ → H × Response) where
  -- The loop over the buffer. The bytes from `start` to `i` are `line`, those from `i` on the
  -- argument after it.
  unfoldable pub dispatch_lines : H → ℤ → Bytes → Bytes → Outcome H
  dispatch_lines h fd line [] = (h, [], some line)
  dispatch_lines h fd line (c ∷ s) = elim (c == b'\n') [
    | false ↦ dispatch_lines h fd (line ++ c ∷ []) s
    | true ↦ answer (λ h'. dispatch_lines h' fd [] s) fd (handler h line fd)
  ]

  -- The end of `on_client_readable_fd`.
  abbrev pub keep_rest : IpcServer → ℕ → Outcome H → IpcServer × H × List Effect
  keep_rest s i (h, es, none) = let (s', es') = close_client s i in (s', h, es ++ es')
  keep_rest s i (h, es, some rest) = (with_client s i (record (client s i) { recv = rest }), h, es)

  abbrev pub give_up : IpcServer → H → ℕ → IpcServer × H × List Effect
  give_up s h i = let (s', es) = close_client s i in (s', h, es)

  -- What `read` returned; it was asked for the bytes that the buffer has room for.
  abbrev pub received : IpcServer → H → ℕ → ReadResult → IpcServer × H × List Effect
  received s h i (bytes []) = give_up s h i
  received s h i (bytes (b ∷ bs)) =
      let c = client s i in
      keep_rest s i
        (dispatch_lines h c.fd [] (c.recv ++ take (client_recv_buf - length c.recv) (b ∷ bs)))
  received s h i eof = give_up s h i
  received s h i try_again = (s, h, [])
  received s h i broken = give_up s h i

  unfoldable pub read_client : IpcServer → H → ℕ → ReadResult → IpcServer × H × List Effect
  read_client s h i r =
      if client_recv_buf - length (client s i).recv == 0 then give_up s h i else received s h i r

  unfoldable pub on_client_readable_fd :
      IpcServer → H → ℤ → ReadResult → IpcServer × H × List Effect
  on_client_readable_fd s h client_fd r = elim (find_slot_by_fd s client_fd) [
    | none ↦ (s, h, [])
    | some i ↦ read_client s h i r
  ]

-- The same, with a handler that does not see the descriptor.
unfoldable pub on_client_readable {ℓ} :
    {H : Type ℓ}
    → (H → Bytes → H × Response)
    → IpcServer
    → H
    → ℤ
    → ReadResult
    → IpcServer × H × List Effect
on_client_readable handler s h client_fd r =
    on_client_readable_fd (λ h' line fd. handler h' line) s h client_fd r
