-- ===== src/Worker/Pool/Refines.antt =====
-- `GetConnection` as a whole against the steps of the workers (Go/internal/worker/pool.go).
use share_hound.Prelude.{
  ℕ, ◌+◌, ◌≡◌, refl, Bool, true, false, List, [], ◌∷◌, Option, none, some, arith, ◌⊎◌, inl, inr,
  Bool-cases,
}
use share_hound.Prelude.Text.{Text}
use share_hound.Worker.Pool.Counts.{count, count-without}
use share_hound.Worker.Pool.Exclusive.{Reachable-Invariant, take_pooled_exclusive}
use share_hound.Worker.Pool.Steps.{World, take, begin, drop, Reachable, step}
use share_hound.Worker.Pool.{
  ConnectionPool, take_from, take_pooled, open_session, reuse_or_open, get_connection, track,
  forget, last_session, pooled, without,
}

-- The session of a result.
abbrev pub session_of : Option ℕ → List ℕ
session_of none = []
session_of (some conn) = conn ∷ []

-- A state that the workers can reach, with this pool, where this result is held besides what was held.
pub record Reaches (limit : ℕ) (held : List ℕ) (p : ConnectionPool) (result : Option ℕ)
    : Type 0 where
  pub world : World
  pub reachable : Reachable limit world
  pub same_pool : world.pool ≡ p
  pub holds : (x : ℕ) → count x world.held ≡ count x (session_of result) + count x held

open_session-Reaches :
    {limit : ℕ} (w : World) (connects : Bool)
    → Reachable limit w
    → Reaches limit w.held
        (open_session w.next connects w.pool).0
        (open_session w.next connects w.pool).1
unfolding open_session count
open_session-Reaches w true r = record {
  world = record { pool = track w.next w.pool; held = w.next ∷ w.held; next = w.next + 1 };
  reachable = step r begin;
  same_pool = refl;
  holds = λ x. ground arith;
}
open_session-Reaches w false r =
    let tracked : World = record {
      pool = track w.next w.pool;
      held = w.next ∷ w.held;
      next = w.next + 1;
    } in
    let unknown = (Reachable-Invariant r).fresh w.next in
    record {
      world = record tracked {
        pool = forget w.next tracked.pool;
        held = without w.next tracked.held;
      };
      reachable = step (step r begin) (drop w.next);
      same_pool = refl;
      holds = λ x. ground (arith, count-without x w.next tracked.held);
    }

take_cases :
    (host : Text) (q : ConnectionPool)
    → (take_pooled host q ≡ (q, none))
      ⊎ ((p : ConnectionPool) × (conn : ℕ) × (take_pooled host q ≡ (p, some conn)))
unfolding take_pooled
take_cases host q = by_sessions (last_session (pooled host q.connections))
  where
    by_sessions :
        (o : Option (List ℕ × ℕ))
        → (take_from host q o ≡ (q, none))
          ⊎ ((p : ConnectionPool) × (conn : ℕ) × (take_from host q o ≡ (p, some conn)))
    by_sessions none = inl refl
    by_sessions (some (before, conn)) = inr (_, conn, refl)

reuse_or_open-Reaches :
    {limit : ℕ} (w : World) (pings : ℕ → Bool) (connects : Bool) (host : Text) (p : ConnectionPool)
    (conn : ℕ)
    → Reachable limit w
    → take_pooled host w.pool ≡ (p, some conn)
    → Reaches limit w.held
        (reuse_or_open pings w.next connects p (some conn)).0
        (reuse_or_open pings w.next connects p (some conn)).1
unfolding reuse_or_open count
reuse_or_open-Reaches w pings connects host p conn r e =
    let there : World = record { pool = p; held = conn ∷ w.held; next = w.next } in
    let reach = step r (take host p conn e) in
    elim (Bool-cases (pings conn)) [
      | inl alive ↦
          rw (reuse_or_open, alive)
            (record {
              world = there;
              reachable = reach;
              same_pool = refl;
              holds = λ x. ground arith;
            })
      | inr dead ↦
          let dropped : World = record {
            pool = forget conn p;
            held = without conn there.held;
            next = w.next;
          } in
          let opened = open_session-Reaches dropped connects (step reach (drop conn)) in
          let (gone, _) = take_pooled_exclusive host p conn r e in
          rw (reuse_or_open, dead)
            (record {
              world = opened.world;
              reachable = opened.reachable;
              same_pool = opened.same_pool;
              holds = λ x. ground (arith, opened.holds x, count-without x conn there.held);
            })
    ]

-- From a state that the workers can reach, `GetConnection` with a new session leads to the pool of a state
-- that they can reach; there the session that it returns, if it returns one, is held besides what was held
-- before, and a session that did not answer is held no more.
pub get_connection-Reaches :
    {limit : ℕ} (w : World) (pings : ℕ → Bool) (connects : Bool) (host : Text)
    → Reachable limit w
    → Reaches limit w.held
        (get_connection pings w.next connects host w.pool).0
        (get_connection pings w.next connects host w.pool).1
unfolding get_connection reuse_or_open
get_connection-Reaches w pings connects host r = elim (take_cases host w.pool) [
  | inl e ↦ rw (get_connection, e) (open_session-Reaches w connects r)
  | inr (p, conn, e) ↦
      rw (get_connection, e) (reuse_or_open-Reaches w pings connects host p conn r e)
]
