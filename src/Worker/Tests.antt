-- ===== src/Worker/Tests.antt =====
-- Two workers and one host, and the theorems of Go/internal/worker/pool.go on them.
use share_hound.Prelude.{◌≤◌, ◌≡◌, refl, true, false, [], ◌∷◌, some, length}
use share_hound.Prelude.Text.{codes, eqb}
use share_hound.Worker.Pool.Counts.{count}
use share_hound.Worker.Pool.Exclusive.{take_pooled_exclusive, pooled_bounded}
use share_hound.Worker.Pool.Refines.{Reaches, get_connection-Reaches}
use share_hound.Worker.Pool.Steps.{World, Reachable, start, step, begin, give}
use share_hound.Worker.Pool.{
  ConnectionPool, pooled, all_pooled, take_pooled, get_connection, last_session, return_connection,
  set_pooled, without,
}

-- Sessions 0 and 1 were made; the pool may keep one of them, and session 0 was returned.
abbrev returned : World
returned = record {
  pool = record {
    max_connections_per_host = 1;
    connections = (codes "srv", 0 ∷ []) ∷ [];
    active_connections = 1 ∷ [];
  };
  held = 1 ∷ [];
  next = 2;
}

returned-Reachable : Reachable 1 returned
unfolding count return_connection without pooled set_pooled
returned-Reachable = step (step (step start begin) begin) (give (codes "srv") 0 refl)

abbrev taken : ConnectionPool
taken = record {
  max_connections_per_host = 1;
  connections = (codes "srv", []) ∷ [];
  active_connections = 0 ∷ 1 ∷ [];
}

take_returned : take_pooled (codes "srv") returned.pool ≡ (taken, some 0)
unfolding take_pooled last_session pooled eqb set_pooled without
take_returned = refl

take_pooled_exclusive_example :
    (count 0 returned.held ≡ 0) × (count 0 (all_pooled taken.connections) ≡ 0)
take_pooled_exclusive_example =
    take_pooled_exclusive (codes "srv") taken 0 returned-Reachable take_returned

pooled_bounded_example : length (pooled (codes "srv") returned.pool.connections) ≤ 1
pooled_bounded_example = pooled_bounded (codes "srv") returned-Reachable

-- The pooled session does not answer, and a new one is made.
get_connection-Reaches_example :
    Reaches 1
      (1 ∷ [])
      (get_connection (λ c. false) 2 true (codes "srv") returned.pool).0
      (get_connection (λ c. false) 2 true (codes "srv") returned.pool).1
get_connection-Reaches_example =
    get_connection-Reaches returned (λ c. false) true (codes "srv") returned-Reachable
