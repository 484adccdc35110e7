-- ===== src/Worker/Pool/Sessions.antt =====
-- The sessions in use when one worker takes and gives back (Go/internal/worker/pool.go).
use share_hound.Prelude.{
  ℕ, ◌≡◌, refl, Bool, true, false, [], ◌∷◌, List, Option, none, some, ltb, length, ◌++◌,
  if◌then◌else◌, arith, ==_iff,
}
use share_hound.Prelude.Text.{Text}
use share_hound.Worker.Pool.{
  ConnectionPool, track, forget, without, take_from, take_pooled, last_session, pooled,
  open_session, reuse_or_open, set_pooled, get_connection, return_connection,
}

-- The sessions in use, if there were none, behind the result of `GetConnection`.
abbrev pub in_use : Option ℕ → List ℕ
in_use none = []
in_use (some conn) = conn ∷ []

-- What `GetConnection` leaves, and what `ReturnConnection` leaves.
abbrev pub InUse : ConnectionPool × Option ℕ × List ℕ → Type 0
InUse r = r.0.active_connections ≡ in_use r.1

abbrev Idle : ConnectionPool × List ℕ → Type 0
Idle r = r.0.active_connections ≡ []

without_self : (conn : ℕ) → without conn (conn ∷ []) ≡ []
unfolding without
without_self conn = ground arith

open_session-active :
    (session : ℕ) (connects : Bool) (p : ConnectionPool)
    → p.active_connections ≡ []
    → (open_session session connects p).0.active_connections
      ≡ in_use (open_session session connects p).1
unfolding open_session without
open_session-active session true p h = rw h refl
open_session-active session false p h = ground (arith, ==_iff session session)

-- After a session was taken out of the pool, or none was.
reuse_or_open-active :
    (pings : ℕ → Bool) (session : ℕ) (connects : Bool) (host : Text) (p : ConnectionPool)
    (o : Option (List ℕ × ℕ))
    → p.active_connections ≡ []
    → (reuse_or_open pings session connects
        (take_from host p o).0
        (take_from host p o).1).0.active_connections
      ≡ in_use
          (reuse_or_open pings session connects (take_from host p o).0 (take_from host p o).1).1
unfolding reuse_or_open without
reuse_or_open-active pings session connects host p none h = open_session-active session connects p h
reuse_or_open-active pings session connects host p (some (before, conn)) h =
    let taken = track conn (record p { connections = set_pooled host before p.connections }) in
    let left = forget conn taken in
    let opened = open_session session connects left in
    let empty : left.active_connections ≡ [] = rw h (without_self conn) in
    elim (pings conn)
      as (λ (b : Bool).
        InUse (if b then (taken, some conn, []) else (opened.0, opened.1, conn ∷ []))) [
          | true ↦ rw h refl
          | false ↦ open_session-active session connects left empty
        ]

-- From a pool with no session in use, `GetConnection` leaves just the session in use that it returns.
pub get_connection-active :
    (pings : ℕ → Bool) (session : ℕ) (connects : Bool) (host : Text) (p : ConnectionPool)
    → p.active_connections ≡ []
    → InUse (get_connection pings session connects host p)
unfolding get_connection take_pooled
get_connection-active pings session connects host p h =
    reuse_or_open-active pings session connects host p (last_session (pooled host p.connections)) h

-- The session is given back.
pub return_connection-active :
    (host : Text) (conn : ℕ) (p : ConnectionPool)
    → p.active_connections ≡ conn ∷ []
    → (return_connection host conn p).0.active_connections ≡ []
unfolding return_connection
return_connection-active host conn p h =
    let q = forget conn p in
    let conns = pooled host q.connections in
    let empty : q.active_connections ≡ [] = rw h (without_self conn) in
    elim (ltb (length conns) q.max_connections_per_host)
      as (λ (b : Bool). Idle (
        if b
        then (record q { connections = set_pooled host (conns ++ (conn ∷ [])) q.connections }, [])
        else (q, conn ∷ []))) [ true ↦ empty | false ↦ empty ]
