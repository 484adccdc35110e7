-- ===== src/Worker/Tasks/Target/Counters.antt =====
-- The processing of one target (Go/internal/worker/worker.go): the counters of the tasks, the graph, and
-- the sessions.
use share_hound.Collector.Contents.Traverse.Ends.{no_panic, Post, Post->>=, Post-if, Post-map}
use share_hound.Collector.Contents.Traverse.Tally.{Balanced}
use share_hound.Collector.Counts.{WorkerResults, other_counters}
use share_hound.Prelude.{
  ℕ, zero, suc, ltb, ◌&&◌, true, false, sym, subst, ◌+◌, ◌≡◌, refl, ap, ◌∙◌, Bool, List, [], ◌∷◌,
  none, if◌then◌else◌, length, arith,
}
use share_hound.Prelude.Int.{int_laws}
use share_hound.Prelude.Text.{Text}
use share_hound.Rules.Evaluator.{Rule}
use share_hound.Rules.Value.{Runtime}
use share_hound.Worker.Pool.{ConnectionPool}
use share_hound.Worker.Tasks.Share.{IsSoundGraph, Kept, process_share-Kept}
use share_hound.Worker.Tasks.Target.{
  with_results, task_done, Totals, one_skipped, one_processed, wait_for_cancel, acquire,
  run_acquired, run_share, run_shares,
}
use share_hound.Worker.Tasks.{Options, ShareInfo, Network, Work, read, process_share}

-- The shares whose goroutine does not get the semaphore.
unfoldable pub refused : Network → Options → List ShareInfo → ℕ
refused net opts [] = 0
refused net opts (s ∷ shares) =
    let rest = refused net opts shares in
    if ltb 0 opts.max_workers_per_host && net.acquires s.name then rest else rest + 1

-- What the goroutines of some shares do, `n` of them, of which `lost` do not get the semaphore.
pub record Ran (n lost : ℕ) (w : Work) (t : Totals) (r : Work × Totals) : Type 0 where
  pub graph : IsSoundGraph r.0.graph
  pub idle : r.0.pool.active_connections ≡ []
  pub finished : r.0.results.tasks_finished ≡ w.results.tasks_finished + n
  pub pending : Balanced r.0.results.tasks_pending n w.results.tasks_pending 0
  pub total : r.0.results.tasks_total ≡ w.results.tasks_total
  pub success : r.0.results.success ≡ w.results.success
  pub errors : r.0.results.errors ≡ w.results.errors
  pub active : r.0.results.active_hosts ≡ w.results.active_hosts
  pub shares_pending : r.0.results.shares_pending ≡ w.results.shares_pending
  pub counted :
      r.1.total_share_count + r.1.skipped_shares_count + lost
      ≡ t.total_share_count + t.skipped_shares_count + n

-- One goroutine that leaves the other counters alone.
ran :
    (lost : ℕ) (w v : Work) (t u : Totals)
    → IsSoundGraph v.graph
    → v.pool.active_connections ≡ []
    → other_counters v.results ≡ other_counters w.results
    → u.total_share_count + u.skipped_shares_count + lost
      ≡ t.total_share_count + t.skipped_shares_count + 1
    → Ran 1 lost w t (with_results task_done v, u)
ran lost w v t u s idle same counted = record {
  graph = s;
  idle = idle;
  finished = omega (arith, ap (λ (r : WorkerResults). r.tasks_finished) same);
  pending = let e = ap (λ (r : WorkerResults). r.tasks_pending) same in rw e (omega int_laws);
  total = ap (λ (r : WorkerResults). r.tasks_total) same;
  success = ap (λ (r : WorkerResults). r.success) same;
  errors = ap (λ (r : WorkerResults). r.errors) same;
  active = ap (λ (r : WorkerResults). r.active_hosts) same;
  shares_pending = ap (λ (r : WorkerResults). r.shares_pending) same;
  counted = counted;
}

Ran-trans :
    (k m n all lost gone : ℕ) (w : Work) (t : Totals) (r q : Work × Totals)
    → k ≡ m + n
    → all ≡ lost + gone
    → Ran m lost w t r
    → Ran n gone r.0 r.1 q
    → Ran k all w t q
Ran-trans k m n all lost gone w t r q numbers losses a b = record {
  graph = b.graph;
  idle = b.idle;
  finished = omega (arith, a.finished, b.finished);
  pending = omega (arith, a.pending, b.pending);
  total = b.total ∙ a.total;
  success = b.success ∙ a.success;
  errors = b.errors ∙ a.errors;
  active = b.active ∙ a.active;
  shares_pending = b.shares_pending ∙ a.shares_pending;
  counted = omega (arith, a.counted, b.counted);
}

one_refused : (b c : Bool) → b ≡ c → (if b then 0 else 1) ≡ (if c then 0 else 0 + 1)
one_refused b c e = ground arith

module _ {F : Type 0} (rt : Runtime F) (net : Network) (timeout : ℕ → Bool) (opts : Options)
    (fuel : ℕ) (rules : List (Rule F)) (host name : Text) where
  -- What waiting leaves alone.
  abbrev Waited : Work → Work → Type 0
  Waited w v = (v.graph ≡ w.graph) × (v.pool ≡ w.pool) × (v.results ≡ w.results)

  wait_for_cancel-Waited :
      (steps : ℕ) (w : Work) → Post no_panic (Waited w) (wait_for_cancel timeout steps w)
  unfolding wait_for_cancel
  wait_for_cancel-Waited zero w = tt
  wait_for_cancel-Waited (suc steps) w =
      Post-if no_panic (Waited w) (timeout w.reads) _ _ (λ _. (refl, refl, refl))
        (λ _. wait_for_cancel-Waited steps (read w))

  abbrev Acquired : ShareInfo → Work → Work × Bool → Type 0
  Acquired share w a =
      Waited w a.0 × (a.1 ≡ (ltb 0 opts.max_workers_per_host && net.acquires share.name))

  acquire-Waited :
      (share : ShareInfo) (w : Work)
      → Post no_panic (Acquired share w) (acquire rt net timeout opts fuel rules host name share w)
  unfolding acquire
  acquire-Waited share w =
      Post-if no_panic (Acquired share w) (ltb 0 opts.max_workers_per_host) _ _
        (λ room. ((refl, refl, refl), rw room refl))
        λ none.
          Post->>= no_panic (Waited w) (Acquired share w) (wait_for_cancel timeout fuel w) _
            (wait_for_cancel-Waited fuel w) λ v same. (same, rw none refl)

  run_acquired-Ran :
      (share : ShareInfo) (w : Work) (t : Totals) (v : Work) (acquired : Bool)
      → IsSoundGraph v.graph
      → v.pool.active_connections ≡ []
      → v.results ≡ w.results
      → Post no_panic
          (Ran 1 (if acquired then 0 else 1) w t)
          (run_acquired rt net timeout opts fuel rules host name share t (v, acquired))
  unfolding run_acquired
  run_acquired-Ran share w t v false s idle same =
      ran 1 w v t t s idle (ap other_counters same) (omega arith)
  run_acquired-Ran share w t v true s idle same =
      Post-if no_panic (Ran 1 0 w t) (timeout v.reads) _ _
        (λ _. ran 0 w (read v) t (one_skipped t) s idle (ap other_counters same) (omega arith))
        λ _.
          Post->>= no_panic (Kept none (read v)) (Ran 1 0 w t)
            (process_share rt net timeout opts fuel rules host name share (read v)) _
            (process_share-Kept rt net timeout opts fuel rules host name share (read v) s)
            λ r k.
              ran 0 w r.0 t (one_processed r.1 t) k.graph (k.released idle)
                (k.others ∙ ap other_counters same) (omega arith)

  run_share-Ran :
      (share : ShareInfo) (w : Work) (t : Totals)
      → IsSoundGraph w.graph
      → w.pool.active_connections ≡ []
      → Post no_panic
          (Ran 1 (refused net opts (share ∷ [])) w t)
          (run_share rt net timeout opts fuel rules host name share w t)
  unfolding run_share refused
  run_share-Ran share w t s idle =
      Post->>= no_panic (Acquired share w) (Ran 1 (refused net opts (share ∷ [])) w t)
        (acquire rt net timeout opts fuel rules host name share w) _ (acquire-Waited share w)
        λ (v, acquired) ((graph, pool, results), e).
          subst
            (λ n.
              Post no_panic (Ran 1 n w t)
                (run_acquired rt net timeout opts fuel rules host name share t (v, acquired)))
            (one_refused acquired (ltb 0 opts.max_workers_per_host && net.acquires share.name) e)
            (run_acquired-Ran share w t v acquired (subst IsSoundGraph (sym graph) s)
              (ap (λ (p : ConnectionPool). p.active_connections) pool ∙ idle) results)

  pub run_shares-Ran :
      (shares : List ShareInfo) (w : Work) (t : Totals)
      → IsSoundGraph w.graph
      → w.pool.active_connections ≡ []
      → Post no_panic
          (Ran (length shares) (refused net opts shares) w t)
          (run_shares rt net timeout opts fuel rules host name shares w t)
  unfolding run_shares refused
  run_shares-Ran [] w t s idle = record {
    graph = s;
    idle = idle;
    finished = omega arith;
    pending = omega arith;
    total = refl;
    success = refl;
    errors = refl;
    active = refl;
    shares_pending = refl;
    counted = refl;
  }
  run_shares-Ran (share ∷ shares) w t s idle =
      Post->>= no_panic (Ran 1 (refused net opts (share ∷ [])) w t)
        (Ran (length (share ∷ shares)) (refused net opts (share ∷ shares)) w t)
        (run_share rt net timeout opts fuel rules host name share w t) _
        (run_share-Ran share w t s idle)
        λ r a.
          Post-map no_panic (Ran (length shares) (refused net opts shares) r.0 r.1)
            (Ran (length (share ∷ shares)) (refused net opts (share ∷ shares)) w t)
            (run_shares rt net timeout opts fuel rules host name shares r.0 r.1)
            (λ q b.
              Ran-trans (length (share ∷ shares)) 1 (length shares)
                (refused net opts (share ∷ shares)) (refused net opts (share ∷ []))
                (refused net opts shares) w t r q (omega arith) (ground arith) a b)
            (run_shares-Ran shares r.0 r.1 a.graph a.idle)
