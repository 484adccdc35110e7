-- ===== src/Worker/Pool/Steps.antt =====
-- The pool of sessions under any interleaving of the workers (Go/internal/worker/pool.go). A worker does
-- one section of the code at a time; it holds a session from where `GetConnection` takes or makes it to
-- where it drops or returns it, and returns only sessions that it holds.
use share_hound.Prelude.{
  ℕ, ◌+◌, ◌≤◌, ◌≡◌, refl, List, [], ◌∷◌, ◌++◌, Option, none, some, arith, length, length-append,
}
use share_hound.Prelude.Text.{Text}
use share_hound.Worker.Pool.Counts.{
  count, count-append, count-last_session, count-without, count-set_pooled, pooled-set_pooled,
}
use share_hound.Worker.Pool.{
  ConnectionPool, new_connection_pool, pooled, set_pooled, without, track, forget, last_session,
  take_pooled, take_from, return_connection, all_pooled, close_all, force_close_all,
}

-- The pool, the sessions that workers hold, and the number of the next session.
pub record World : Type 0 where
  pub pool : ConnectionPool
  pub held : List ℕ
  pub next : ℕ

pub data Step (w : World) : World → Type 0 where
  take :
      (host : Text) (p : ConnectionPool) (conn : ℕ)
      → take_pooled host w.pool ≡ (p, some conn)
      → Step w (record { pool = p; held = conn ∷ w.held; next = w.next })
  begin : Step w (record { pool = track w.next w.pool; held = w.next ∷ w.held; next = w.next + 1 })
  drop :
      (conn : ℕ)
      → Step w (record { pool = forget conn w.pool; held = without conn w.held; next = w.next })
  give :
      (host : Text) (conn : ℕ)
      → count conn w.held ≡ 1
      → Step w (record {
        pool = (return_connection host conn w.pool).0;
        held = without conn w.held;
        next = w.next;
      })
  close : Step w (record { pool = (close_all w.pool).0; held = w.held; next = w.next })
  force : Step w (record { pool = (force_close_all w.pool).0; held = w.held; next = w.next })

pub data Reachable (limit : ℕ) : World → Type 0 where
  start : Reachable limit (record { pool = new_connection_pool limit; held = []; next = 0 })
  step : {v w : World} → Reachable limit v → Step v w → Reachable limit w

-- How often a session is held or pooled.
abbrev pub total : ℕ → World → ℕ
total x w = count x w.held + count x (all_pooled w.pool.connections)

pub record Invariant (limit : ℕ) (w : World) : Type 0 where
  pub same_limit : w.pool.max_connections_per_host ≡ limit
  pub unique : (x : ℕ) → total x w ≤ 1
  pub fresh : (x : ℕ) → w.next ≤ x → total x w ≡ 0
  pub bounded : (host : Text) → length (pooled host w.pool.connections) ≤ limit

pub start-Invariant :
    (limit : ℕ) → Invariant limit (record { pool = new_connection_pool limit; held = []; next = 0 })
unfolding count all_pooled pooled
start-Invariant limit = record {
  same_limit = refl;
  unique = λ x. omega arith;
  fresh = λ x h. refl;
  bounded = λ host. omega arith;
}

-- Where a session was taken from.
taken :
    (host : Text) (q p : ConnectionPool) (conn : ℕ) (o : Option (List ℕ × ℕ))
    → take_from host q o ≡ (p, some conn)
    → (before : List ℕ) × (o ≡ some (before, conn))
      × (p ≡ track conn (record q { connections = set_pooled host before q.connections }))
taken host q p conn none e = cc
taken host q p conn (some (before, c)) e =
    let same : c ≡ conn = cc in (before, rw same refl, rw (← same) cc)

pub take_pooled-inverse :
    (host : Text) (q p : ConnectionPool) (conn : ℕ)
    → take_pooled host q ≡ (p, some conn)
    → (before : List ℕ) × (last_session (pooled host q.connections) ≡ some (before, conn))
      × (p ≡ track conn (record q { connections = set_pooled host before q.connections }))
unfolding take_pooled
take_pooled-inverse host q p conn e =
    taken host q p conn (last_session (pooled host q.connections)) e

-- Taking a session moves it from the pool to the worker.
pub total-take :
    (host : Text) (w : World) (p : ConnectionPool) (conn x : ℕ)
    → take_pooled host w.pool ≡ (p, some conn)
    → count x (conn ∷ w.held) + count x (all_pooled p.connections) ≡ total x w
unfolding count
total-take host w p conn x e =
    let (before, s, same) = take_pooled-inverse host w.pool p conn e in
    let (counts, _) = count-last_session x (pooled host w.pool.connections) before conn s in
    let moved = count-set_pooled x host before w.pool.connections in rw same (ground arith)

pub bounded-take :
    (limit : ℕ) (host other : Text) (w : World) (p : ConnectionPool) (conn : ℕ)
    → take_pooled host w.pool ≡ (p, some conn)
    → ((h : Text) → length (pooled h w.pool.connections) ≤ limit)
    → length (pooled other p.connections) ≤ limit
bounded-take limit host other w p conn e h =
    let (before, s, same) = take_pooled-inverse host w.pool p conn e in
    let (_, shorter) = count-last_session 0 (pooled host w.pool.connections) before conn s in
    let there = h host in
    let elsewhere = h other in
    rw (same, pooled-set_pooled host other before w.pool.connections) (ground arith)

-- Returning a session that is held once moves it back, or drops it.
pub total-give :
    (host : Text) (w : World) (conn x : ℕ)
    → count conn w.held ≡ 1
    → total x w ≤ 1
    → count x (without conn w.held)
        + count x (all_pooled (return_connection host conn w.pool).0.connections)
      ≤ total x w
unfolding return_connection count
total-give host w conn x held once = ground (
  arith,
  count-without x conn w.held,
  count-set_pooled x host (pooled host w.pool.connections ++ (conn ∷ [])) w.pool.connections,
  count-append x (pooled host w.pool.connections) (conn ∷ []),
)

pub bounded-give :
    (limit : ℕ) (host other : Text) (w : World) (conn : ℕ)
    → w.pool.max_connections_per_host ≡ limit
    → ((h : Text) → length (pooled h w.pool.connections) ≤ limit)
    → length (pooled other (return_connection host conn w.pool).0.connections) ≤ limit
unfolding return_connection
bounded-give limit host other w conn l h = ground (
  arith,
  h other,
  pooled-set_pooled host other (pooled host w.pool.connections ++ (conn ∷ [])) w.pool.connections,
  length-append (pooled host w.pool.connections) (conn ∷ []),
)

pub return_connection-limit :
    (limit : ℕ) (host : Text) (conn : ℕ) (q : ConnectionPool)
    → q.max_connections_per_host ≡ limit
    → (return_connection host conn q).0.max_connections_per_host ≡ limit
unfolding return_connection
return_connection-limit limit host conn q h = ground arith
