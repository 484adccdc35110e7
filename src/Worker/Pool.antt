-- ===== src/Worker/Pool.antt =====
-- Go/internal/worker/pool.go: the pool of sessions. A session is a number; pinging, connecting and closing
-- it are requests to the host, so whether a ping or a connection succeeds is an argument, and the sessions
-- that are closed are part of the result. Each section between `Lock` and `Unlock` is a function.
use share_hound.Prelude.{
  ℕ, ◌+◌, ◌≡◌, Bool, true, false, List, [], ◌∷◌, ◌++◌, Option, none, some, ◌==◌, ltb, if◌then◌else◌,
  length,
}
use share_hound.Prelude.Text.{Text, eqb}
pub mod Counts
pub mod Sessions
pub mod Steps
pub mod Exclusive
pub mod Refines

pub record ConnectionPool : Type 0 where
  pub max_connections_per_host : ℕ
  pub connections : List (Text × List ℕ)
  pub active_connections : List ℕ

-- `NewConnectionPool`
abbrev pub new_connection_pool : ℕ → ConnectionPool
new_connection_pool max_connections_per_host = record {
  max_connections_per_host = max_connections_per_host;
  connections = [];
  active_connections = [];
}

-- `p.connections[host]`
unfoldable pub pooled : Text → List (Text × List ℕ) → List ℕ
pooled host [] = []
pooled host ((h, conns) ∷ m) = if eqb h host then conns else pooled host m

-- `p.connections[host] = conns`
unfoldable pub set_pooled : Text → List ℕ → List (Text × List ℕ) → List (Text × List ℕ)
set_pooled host conns [] = (host, conns) ∷ []
set_pooled host conns ((h, old) ∷ m) =
    if eqb h host then (h, conns) ∷ m else (h, old) ∷ set_pooled host conns m

-- `delete(p.activeConnections, conn)`
unfoldable pub without : ℕ → List ℕ → List ℕ
without conn [] = []
without conn (c ∷ cs) = let rest = without conn cs in if c == conn then rest else c ∷ rest

-- `p.activeConnections[conn] = true`
abbrev pub track : ℕ → ConnectionPool → ConnectionPool
track conn p = record p { active_connections = conn ∷ without conn p.active_connections }

abbrev pub forget : ℕ → ConnectionPool → ConnectionPool
forget conn p = record p { active_connections = without conn p.active_connections }

-- The last session and those before it.
unfoldable pub last_session : List ℕ → Option (List ℕ × ℕ)
last_session [] = none
last_session (c ∷ cs) = elim (last_session cs) [
  | none ↦ some ([], c)
  | some (before, last) ↦ some (c ∷ before, last)
]

-- The case distinction on the pooled sessions of a host.
abbrev pub take_from : Text → ConnectionPool → Option (List ℕ × ℕ) → ConnectionPool × Option ℕ
take_from host p none = (p, none)
take_from host p (some (before, conn)) =
    (track conn (record p { connections = set_pooled host before p.connections }), some conn)

-- The first section of `GetConnection`
unfoldable pub take_pooled : Text → ConnectionPool → ConnectionPool × Option ℕ
take_pooled host p = take_from host p (last_session (pooled host p.connections))

-- `GetConnection` from `NewSMBSession` on, for the new session `session`
unfoldable pub open_session : ℕ → Bool → ConnectionPool → ConnectionPool × Option ℕ
open_session session connects p =
    let p' = track session p in if connects then (p', some session) else (forget session p', none)

-- The rest of `GetConnection`, behind its first section.
unfoldable pub reuse_or_open :
    (ℕ → Bool) → ℕ → Bool → ConnectionPool → Option ℕ → ConnectionPool × Option ℕ × List ℕ
unfolding open_session
reuse_or_open pings session connects p none =
    let (p', result) = open_session session connects p in (p', result, [])
reuse_or_open pings session connects p (some conn) =
    if pings conn
    then (p, some conn, [])
    else let (p', result) = open_session session connects (forget conn p) in (p', result, conn ∷ [])

-- `GetConnection`: the pool, the session if there is one, and the sessions that were closed
unfoldable pub get_connection :
    (ℕ → Bool) → ℕ → Bool → Text → ConnectionPool → ConnectionPool × Option ℕ × List ℕ
unfolding take_pooled reuse_or_open
get_connection pings session connects host p =
    let (p', reused) = take_pooled host p in reuse_or_open pings session connects p' reused

-- `ReturnConnection`: the pool, and the sessions that were closed
unfoldable pub return_connection : Text → ℕ → ConnectionPool → ConnectionPool × List ℕ
return_connection host conn p' =
    let p = forget conn p' in
    let conns = pooled host p.connections in
    if ltb (length conns) p.max_connections_per_host
    then (record p { connections = set_pooled host (conns ++ (conn ∷ [])) p.connections }, [])
    else (p, conn ∷ [])

-- All the sessions of the pool.
unfoldable pub all_pooled : List (Text × List ℕ) → List ℕ
all_pooled [] = []
all_pooled ((h, conns) ∷ m) = conns ++ all_pooled m

-- `CloseAll`
unfoldable pub close_all : ConnectionPool → ConnectionPool × List ℕ
unfolding all_pooled
close_all p = (record p { connections = [] }, all_pooled p.connections)

-- `ForceCloseAll`
unfoldable pub force_close_all : ConnectionPool → ConnectionPool × List ℕ
unfolding all_pooled
force_close_all p = (
  record p { connections = []; active_connections = [] },
  p.active_connections ++ all_pooled p.connections,
)
