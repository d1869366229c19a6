-- ===== src/Ipc/Server/Shutdown.antt =====
-- `shutdown_server` of ipc/server.cpp closes all that a server has open.
use loginext.Ipc.Server.Lifetime.{Sockets, no_sockets, without_fd, apply_effect, after_effects}
use loginext.Ipc.Server.{
  ClientSlot, IpcServer, Effect, close, shutdown_server, unlink_path, close_all,
}
use loginext.Prelude.{
  ℕ, ◌≡◌, refl, sym, ap, ◌∙◌, Bool, true, false, ◌||◌, if◌then◌else◌, ℤ, eqb_ℤ, eqb_ℤ_refl,
  is_negative, List, [], ◌∷◌, ◌++◌, Bytes, eq_bytes_refl, Bool-cases, inl, inr, arith,
}

-- The descriptors of the clients that are connected.
abbrev pub client_fds : List ClientSlot → List ℤ
client_fds [] = []
client_fds (c ∷ cs) = if is_negative c.fd then client_fds cs else c.fd ∷ client_fds cs

abbrev closes : List ℤ → List Effect
closes [] = []
closes (fd ∷ fds) = close fd ∷ closes fds

abbrev mem_fd : ℤ → List ℤ → Bool
mem_fd x [] = false
mem_fd x (y ∷ ys) = eqb_ℤ y x || mem_fd x ys

-- Every descriptor of the first list is in the second.
abbrev Within : List ℤ → List ℤ → Type 0
Within [] ys = Unit
Within (x ∷ xs) ys = (mem_fd x ys ≡ true) × Within xs ys

Within-without :
    (xs : List ℤ) (y : ℤ) (ys : List ℤ) → Within xs (y ∷ ys) → Within (without_fd y xs) ys
Within-without [] y ys w = tt
Within-without (x ∷ xs) y ys w = elim (Bool-cases (eqb_ℤ y x)) [
  | inl e ↦ rw e (Within-without xs y ys w.1)
  | inr e ↦ rw e (ground (arith, w.0), Within-without xs y ys w.1)
]

Within-more : (xs : List ℤ) (y : ℤ) (ys : List ℤ) → Within xs ys → Within xs (y ∷ ys)
Within-more [] y ys w = tt
Within-more (x ∷ xs) y ys w = (ground (arith, w.0), Within-more xs y ys w.1)

Within-refl : (xs : List ℤ) → Within xs xs
Within-refl [] = tt
Within-refl (x ∷ xs) = (rw (eqb_ℤ_refl x) refl, Within-more xs x xs (Within-refl xs))

closes-all :
    (ys xs ls : List ℤ) (paths : List Bytes)
    → Within xs ys
    → Within ls ys
    → after_effects (closes ys) (record { fds = xs; listening = ls; paths = paths })
      ≡ record { fds = []; listening = []; paths = paths }
closes-all [] [] [] paths w v = refl
closes-all [] [] (l ∷ ls) paths w v = absurd (ground (arith, v.0))
closes-all [] (x ∷ xs) ls paths w v = absurd (ground (arith, w.0))
closes-all (y ∷ ys) xs ls paths w v =
    closes-all ys (without_fd y xs) (without_fd y ls) paths (Within-without xs y ys w)
      (Within-without ls y ys v)

after_effects-append :
    (xs ys : List Effect) (r : Sockets)
    → after_effects (xs ++ ys) r ≡ after_effects ys (after_effects xs r)
after_effects-append [] ys r = refl
after_effects-append (x ∷ xs) ys r = after_effects-append xs ys (apply_effect x r)

close_all-closes : (cs : List ClientSlot) → (close_all cs).1 ≡ closes (client_fds cs)
unfolding close_all
close_all-closes [] = refl
close_all-closes (c ∷ cs) = elim (Bool-cases (is_negative c.fd)) [
  | inl n ↦ rw n (close_all-closes cs)
  | inr n ↦ rw n (ap (λ es. close c.fd ∷ es) (close_all-closes cs))
]

closes-append : (xs ys : List ℤ) → closes (xs ++ ys) ≡ closes xs ++ closes ys
closes-append [] ys = refl
closes-append (x ∷ xs) ys = ap (λ es. close x ∷ es) (closes-append xs ys)

mem_fd-append : (x : ℤ) (ys zs : List ℤ) → mem_fd x (ys ++ zs) ≡ (mem_fd x ys || mem_fd x zs)
mem_fd-append x [] zs = refl
mem_fd-append x (y ∷ ys) zs = ground (arith, mem_fd-append x ys zs)

Within-append : (xs ys zs : List ℤ) → Within xs ys → Within xs (ys ++ zs)
Within-append [] ys zs w = tt
Within-append (x ∷ xs) ys zs w = (rw (mem_fd-append x ys zs, w.0) refl, Within-append xs ys zs w.1)

mem_fd_last : (x : ℤ) (ys : List ℤ) → mem_fd x (ys ++ x ∷ []) ≡ true
mem_fd_last x [] = rw (eqb_ℤ_refl x) refl
mem_fd_last x (y ∷ ys) = ground (arith, mem_fd_last x ys)

-- The listening socket and those of the clients, bound to the server's path.
abbrev pub open_sockets : IpcServer → Sockets
open_sockets s = record {
  fds = s.listen_fd ∷ client_fds s.clients;
  listening = s.listen_fd ∷ [];
  paths = s.sock_path ∷ [];
}

unlink_path-after :
    (c : ℕ) (path : Bytes)
    → after_effects
        (unlink_path (c ∷ path))
        (record { fds = []; listening = []; paths = (c ∷ path) ∷ [] })
      ≡ no_sockets
unlink_path-after c path = rw (eq_bytes_refl (c ∷ path)) refl

-- A server that listens on a path, with any clients connected, has nothing open after its shut-down:
-- the listening socket and every client's are closed, the path is unlinked, and the server's own
-- descriptor is that of no socket.
pub shutdown_server-open :
    (s : IpcServer) (c : ℕ) (path : Bytes)
    → is_negative s.listen_fd ≡ false
    → s.sock_path ≡ c ∷ path
    → let (s', es) = shutdown_server s in
      (after_effects es (open_sockets s) ≡ no_sockets) × (is_negative s'.listen_fd ≡ true)
unfolding shutdown_server
shutdown_server-open s c path n e =
    let fds = client_fds s.clients in
    let all = fds ++ s.listen_fd ∷ [] in
    let w : Within (s.listen_fd ∷ fds) all =
      (mem_fd_last s.listen_fd fds, Within-append fds fds (s.listen_fd ∷ []) (Within-refl fds)) in
    let first : (close_all s.clients).1 ++ close s.listen_fd ∷ [] ≡ closes all =
      ap (λ es. es ++ close s.listen_fd ∷ []) (close_all-closes s.clients)
      ∙ sym (closes-append fds (s.listen_fd ∷ [])) in
    rw (n, e, first)
      (
        after_effects-append (closes all) (unlink_path (c ∷ path)) _
            ∙ ap (after_effects (unlink_path (c ∷ path))) (
                closes-all all (s.listen_fd ∷ fds) (s.listen_fd ∷ []) ((c ∷ path) ∷ []) w (w.0, tt))
            ∙ unlink_path-after c path,
        refl,
      )
