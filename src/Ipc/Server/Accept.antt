-- ===== src/Ipc/Server/Accept.antt =====
-- The client slots over accepts.
use loginext.Ipc.Server.Slots.{IsValid, with_client-IsValid}
use loginext.Ipc.Server.{
  ClientSlot, IpcServer, free_slot, Effect, free_from, find_free_slot, Accepted, connection,
  would_block, interrupted, failed, admit, on_accept,
}
use loginext.Prelude.{
  ℕ, zero, suc, ◌+◌, ◌≤◌, ◌<◌, ◌≡◌, min, refl, ◌∙◌, Bool, true, false, if◌then◌else◌, Option, none,
  some, ℤ, is_negative, List, [], ◌∷◌, length, length-set, get_or, set, Bool-cases, inl, inr, arith,
}

-- The number of slots in use.
abbrev pub in_use : ClientSlot → ℕ
in_use c = if is_negative c.fd then 0 else 1

unfoldable pub used : List ClientSlot → ℕ
used [] = 0
used (c ∷ cs) = in_use c + used cs

used_le : (cs : List ClientSlot) → used cs ≤ length cs
unfolding used
used_le [] = omega arith
used_le (c ∷ cs) = ground (arith, used_le cs)

-- What the search for a free slot answers.
Found : List ClientSlot → ℕ → Option ℕ → Type 0
Found cs k none = used cs ≡ length cs
Found cs k (some i) =
    (d : ℕ) × (i ≡ k + d) × (d < length cs) × (is_negative (get_or cs d free_slot).fd ≡ true)

free_from-Found : (cs : List ClientSlot) (k : ℕ) → Found cs k (free_from cs k)
unfolding free_from used Found
free_from-Found [] k = refl
free_from-Found (c ∷ cs) k = elim (Bool-cases (is_negative c.fd)) [
  | inl e ↦ rw e (0, omega arith, omega arith, e)
  | inr e ↦ rw e (later (free_from cs (k + 1)) (free_from-Found cs (k + 1)) e)
]
  where
    later : (o : Option ℕ) → Found cs (k + 1) o → is_negative c.fd ≡ false → Found (c ∷ cs) k o
    later none f e = ground arith
    later (some i) (d, at, lt, neg) e = (suc d, omega arith, omega arith, neg)

used-set :
    (cs : List ClientSlot) (i : ℕ) (v : ClientSlot)
    → i < length cs
    → is_negative (get_or cs i free_slot).fd ≡ true
    → is_negative v.fd ≡ false
    → used (set cs i v) ≡ used cs + 1
unfolding used
used-set [] i v lt e e' = absurd (omega arith)
used-set (c ∷ cs) zero v lt e e' = ground arith
used-set (c ∷ cs) (suc i) v lt e e' = omega (arith, used-set cs i v (omega arith) e e')

-- What a connection does to the number of slots in use.
taken : Bool → ℕ → ℕ
taken true n = min 4 (n + 1)
taken false n = n

admit-used :
    (s : IpcServer) (cfd : ℤ) (ok : Bool) (o : Option ℕ)
    → length s.clients ≡ 4
    → is_negative cfd ≡ false
    → Found s.clients 0 o
    → used (admit s cfd ok o).0.clients ≡ taken ok (used s.clients)
unfolding admit Found taken
admit-used s cfd true none w e f = omega arith
admit-used s cfd false none w e f = refl
admit-used s cfd true (some i) w e (d, at, lt, neg) =
    let here : i ≡ d = omega arith in
    rw here (
      used-set s.clients d _ lt neg e
      ∙ omega (
        arith,
        used-set s.clients d (record { fd = cfd; recv = [] }) lt neg e,
        used_le (set s.clients d (record { fd = cfd; recv = [] })),
        length-set s.clients d (record { fd = cfd; recv = [] }),
      ))
admit-used s cfd false (some i) w e f = refl

admit-IsValid :
    (s : IpcServer) (cfd : ℤ) (ok : Bool) (o : Option ℕ) → IsValid s → IsValid (admit s cfd ok o).0
unfolding admit
admit-IsValid s cfd ok none v = v
admit-IsValid s cfd true (some i) v =
    with_client-IsValid s i _ v (record { open_line = refl; fits = omega arith })
admit-IsValid s cfd false (some i) v = v

-- The connections that `on_accept` meets and that the epoll instance takes.
unfoldable pub arriving : List Accepted → ℕ
arriving [] = 0
arriving (would_block ∷ rs) = 0
arriving (interrupted ∷ rs) = arriving rs
arriving (failed ∷ rs) = 0
arriving (connection cfd true ∷ rs) = 1 + arriving rs
arriving (connection cfd false ∷ rs) = arriving rs

-- A descriptor of a new connection is not negative.
abbrev pub AreOpen : List Accepted → Type 0
AreOpen [] = Unit
AreOpen (connection cfd ok ∷ rs) = (is_negative cfd ≡ false) × AreOpen rs
AreOpen (would_block ∷ rs) = AreOpen rs
AreOpen (interrupted ∷ rs) = AreOpen rs
AreOpen (failed ∷ rs) = AreOpen rs

pub record Accepts (s : IpcServer) (rs : List Accepted) (out : IpcServer × List Effect)
    : Type 0 where
  pub valid : IsValid out.0
  pub filled : used out.0.clients ≡ min 4 (used s.clients + arriving rs)

on_accept_step :
    (s : IpcServer) (cfd : ℤ) (ok : Bool) (rs : List Accepted)
    → Accepts
        (admit s cfd ok (find_free_slot s)).0
        rs
        (on_accept (admit s cfd ok (find_free_slot s)).0 rs)
    → IsValid s
    → is_negative cfd ≡ false
    → Accepts s (connection cfd ok ∷ rs) (on_accept s (connection cfd ok ∷ rs))
unfolding on_accept arriving taken
on_accept_step s cfd true rs a v e =
    let one = admit-used s cfd true (find_free_slot s) v.width e (free_from-Found s.clients 0) in
    record { valid = a.valid; filled = omega (arith, a.filled, one) }
on_accept_step s cfd false rs a v e =
    let one = admit-used s cfd false (find_free_slot s) v.width e (free_from-Found s.clients 0) in
    record { valid = a.valid; filled = omega (arith, a.filled, one) }

-- From valid slots, and if each new descriptor is not negative, `on_accept` keeps the slots valid
-- and gives a slot to each connection that the epoll instance takes, up to four slots in use: no
-- slot is lost or taken twice.
pub on_accept-Accepts :
    (s : IpcServer) (rs : List Accepted) → IsValid s → AreOpen rs → Accepts s rs (on_accept s rs)
unfolding on_accept arriving
on_accept-Accepts s [] v o = record {
  valid = v;
  filled = omega (arith, used_le s.clients, v.width);
}
on_accept-Accepts s (would_block ∷ rs) v o = record {
  valid = v;
  filled = omega (arith, used_le s.clients, v.width);
}
on_accept-Accepts s (failed ∷ rs) v o = record {
  valid = v;
  filled = omega (arith, used_le s.clients, v.width);
}
on_accept-Accepts s (interrupted ∷ rs) v o =
    let rest = on_accept-Accepts s rs v o in record { valid = rest.valid; filled = rest.filled }
on_accept-Accepts s (connection cfd ok ∷ rs) v (e, o) =
    on_accept_step s cfd ok rs
      (on_accept-Accepts (admit s cfd ok (find_free_slot s)).0 rs
        (admit-IsValid s cfd ok (find_free_slot s) v) o)
      v e

pub on_accept-IsValid :
    (s : IpcServer) (rs : List Accepted) → IsValid s → IsValid (on_accept s rs).0
unfolding on_accept
on_accept-IsValid s [] v = v
on_accept-IsValid s (would_block ∷ rs) v = v
on_accept-IsValid s (failed ∷ rs) v = v
on_accept-IsValid s (interrupted ∷ rs) v = on_accept-IsValid s rs v
on_accept-IsValid s (connection cfd ok ∷ rs) v =
    on_accept-IsValid (admit s cfd ok (find_free_slot s)).0 rs
      (admit-IsValid s cfd ok (find_free_slot s) v)
