-- ===== src/Worker/Pool/Exclusive.antt =====
-- The invariant of the pool of sessions (Go/internal/worker/pool.go).
use share_hound.Prelude.{ℕ, ◌≤◌, ◌≡◌, some, arith, length}
use share_hound.Prelude.Text.{Text}
use share_hound.Worker.Pool.Counts.{count, count-without}
use share_hound.Worker.Pool.Steps.{
  World, Step, take, begin, drop, give, close, force, Reachable, start, step, Invariant,
  start-Invariant, total-take, bounded-take, total-give, bounded-give, take_pooled-inverse,
  return_connection-limit,
}
use share_hound.Worker.Pool.{
  ConnectionPool, pooled, take_pooled, all_pooled, close_all, force_close_all,
}

step-Invariant : {limit : ℕ} {v w : World} → Step v w → Invariant limit v → Invariant limit w
unfolding count close_all force_close_all all_pooled pooled
step-Invariant {limit} {v} (take host p conn e) i =
    let (_, _, same) = take_pooled-inverse host v.pool p conn e in
    record {
      same_limit = rw same (i.same_limit);
      unique = λ x. omega (arith, i.unique x, total-take host v p conn x e);
      fresh = λ x h. omega (arith, i.fresh x h, total-take host v p conn x e);
      bounded = λ other. bounded-take limit host other v p conn e i.bounded;
    }
step-Invariant {v} begin i = record {
  same_limit = i.same_limit;
  unique = λ x. ground (arith, i.unique x, i.fresh x);
  fresh = λ x h. ground (arith, i.fresh x);
  bounded = i.bounded;
}
step-Invariant {v} (drop conn) i = record {
  same_limit = i.same_limit;
  unique = λ x. ground (arith, i.unique x, count-without x conn v.held);
  fresh = λ x h. ground (arith, i.fresh x h, count-without x conn v.held);
  bounded = i.bounded;
}
step-Invariant {limit} {v} (give host conn held) i = record {
  same_limit = return_connection-limit limit host conn v.pool i.same_limit;
  unique = λ x. omega (arith, i.unique x, total-give host v conn x held (i.unique x));
  fresh = λ x h. omega (arith, i.fresh x h, total-give host v conn x held (i.unique x));
  bounded = λ other. bounded-give limit host other v conn i.same_limit i.bounded;
}
step-Invariant close i = record {
  same_limit = i.same_limit;
  unique = λ x. omega (arith, i.unique x);
  fresh = λ x h. omega (arith, i.fresh x h);
  bounded = λ other. omega arith;
}
step-Invariant force i = record {
  same_limit = i.same_limit;
  unique = λ x. omega (arith, i.unique x);
  fresh = λ x h. omega (arith, i.fresh x h);
  bounded = λ other. omega arith;
}

pub Reachable-Invariant : {limit : ℕ} {w : World} → Reachable limit w → Invariant limit w
Reachable-Invariant {limit} start = start-Invariant limit
Reachable-Invariant (step r s) = step-Invariant s (Reachable-Invariant r)

-- In every state that the workers can reach, whatever the order of their steps, a session that
-- `GetConnection` takes from the pool is held by no worker, and is in the pool no more.
pub take_pooled_exclusive :
    {limit : ℕ} {w : World} (host : Text) (p : ConnectionPool) (conn : ℕ)
    → Reachable limit w
    → take_pooled host w.pool ≡ (p, some conn)
    → (count conn w.held ≡ 0) × (count conn (all_pooled p.connections) ≡ 0)
unfolding count
take_pooled_exclusive {w} host p conn r e =
    let i = Reachable-Invariant r in
    let moved = total-take host w p conn conn e in
    let once = i.unique conn in (ground arith, ground arith)

-- In every state that the workers can reach, the pool keeps for no host more sessions than its limit.
pub pooled_bounded :
    {limit : ℕ} {w : World} (host : Text)
    → Reachable limit w
    → length (pooled host w.pool.connections) ≤ limit
pooled_bounded host r = (Reachable-Invariant r).bounded host
