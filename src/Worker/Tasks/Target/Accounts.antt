-- ===== src/Worker/Tasks/Target/Accounts.antt =====
-- The whole processing of one target (Go/internal/worker/worker.go), on each of its ways out.
use share_hound.Collector.Contents.Traverse.Ends.{no_panic, Post, Post->>=, Post-if, Post-ok}
use share_hound.Collector.Counts.{WorkerResults}
use share_hound.Prelude.{
  ℕ, ◌≡◌, ◌≤◌, refl, subst, true, false, Bool-cases, inl, inr, ap, ◌∙◌, Bool, not, List, [], ◌∷◌,
  Option, none, some, length, arith,
}
use share_hound.Prelude.Int.{pos_part, neg_part, int_laws}
use share_hound.Prelude.Outcome.{ok}
use share_hound.Prelude.Text.{Text}
use share_hound.Rules.Evaluator.{Rule}
use share_hound.Rules.Value.{Runtime}
use share_hound.Targets.{Target}
use share_hound.Worker.Pool.Sessions.{in_use, get_connection-active, return_connection-active}
use share_hound.Worker.Pool.{
  ConnectionPool, forget, take_pooled, open_session, reuse_or_open, get_connection, close_all,
}
use share_hound.Worker.Tasks.Share.{IsSoundGraph}
use share_hound.Worker.Tasks.Target.Counters.{Ran, run_shares-Ran, refused}
use share_hound.Worker.Tasks.Target.Ways.{
  Ended, timed_out, failed, no_shares, all_shares, Accounted, Failure, unresolved, port_closed,
  no_session, not_listed, Reached,
}
use share_hound.Worker.Tasks.Target.{
  with_results, target_failed, target_empty, shares_found, Totals, no_totals, target_done,
  host_begins, host_ends, address, run_shares, with_shares, with_first, with_address, finish,
  process_target,
}
use share_hound.Worker.Tasks.{Options, ShareInfo, Network, Work, read, give_back, connection}

module _ (net : Network) (opts : Options) (timeout : ℕ → Bool) (target : Target) where
  abbrev Done : Work → Work → Type 0
  Done w v = Accounted net opts timeout target w v

  -- The flag was set.
  stopped :
      (i : ℕ) (w v : Work)
      → w.reads ≤ i
      → timeout i ≡ true
      → IsSoundGraph v.graph
      → v.pool.active_connections ≡ []
      → v.results ≡ w.results
      → Done w v
  stopped i w v later set s idle same = record {
    graph = s;
    idle = idle;
    pending = ap (λ (r : WorkerResults). r.tasks_pending) same;
    active = ap (λ (r : WorkerResults). r.active_hosts) same;
    ended =
        timed_out i later set (ap (λ (r : WorkerResults). r.tasks_total) same)
          (ap (λ (r : WorkerResults). r.tasks_finished) same)
          (ap (λ (r : WorkerResults). r.success) same) (ap (λ (r : WorkerResults). r.errors) same)
          (ap (λ (r : WorkerResults). r.shares_pending) same);
  }

  -- A request failed.
  gave_up :
      (w v : Work)
      → Failure net opts target w.opened
      → IsSoundGraph v.graph
      → v.pool.active_connections ≡ []
      → v.results ≡ target_failed w.results
      → Done w v
  gave_up w v why s idle same = record {
    graph = s;
    idle = idle;
    pending = ap (λ (r : WorkerResults). r.tasks_pending) same;
    active = ap (λ (r : WorkerResults). r.active_hosts) same;
    ended =
        failed why (ap (λ (r : WorkerResults). r.tasks_total) same)
          (ap (λ (r : WorkerResults). r.tasks_finished) same)
          (ap (λ (r : WorkerResults). r.success) same) (ap (λ (r : WorkerResults). r.errors) same)
          (ap (λ (r : WorkerResults). r.shares_pending) same);
  }

  -- The deferred calls.
  Ended-host_begins :
      (name : Text) (first opened : ℕ) (r s : WorkerResults)
      → Ended net opts timeout target first opened (host_begins name r) s
      → Ended net opts timeout target first opened r (host_ends name s)
  Ended-host_begins name first opened r s (timed_out i l h a b c d e) = timed_out i l h a b c d e
  Ended-host_begins name first opened r s (failed f a b c d e) = failed f a b c d e
  Ended-host_begins name first opened r s (no_shares g l a b c d e) = no_shares g l a b c d e
  Ended-host_begins name first opened r s (all_shares g share more l a b c d e) =
      all_shares g share more l a b c d e

  over :
      (name : Text) (w v : Work)
      → Done (with_results (host_begins name) w) v
      → Done w (finish name v)
  unfolding close_all
  over name w v a = record {
    graph = a.graph;
    idle = a.idle;
    pending = a.pending;
    active = omega (int_laws, ap pos_part a.active, ap neg_part a.active);
    ended = Ended-host_begins name w.reads w.opened w.results v.results a.ended;
  }

  -- All the shares are done; the shares were listed in a state `u` with the counters of `w`.
  after_shares :
      (share : ShareInfo) (more : List ShareInfo) (w v : Work) (r : Work × Totals)
      → Reached net opts target
      → net.list_shares ≡ some (share ∷ more)
      → v.results ≡ shares_found (length (share ∷ more)) w.results
      → Ran (length (share ∷ more)) (refused net opts (share ∷ more)) v no_totals r
      → Done w (with_results (target_done r.1) r.0)
  unfolding target_done
  after_shares share more w v r reached e found a = record {
    graph = a.graph;
    idle = a.idle;
    pending =
        let q = ap (λ (x : WorkerResults). x.tasks_pending) found in
        omega (int_laws, a.pending, ap pos_part q, ap neg_part q);
    active = a.active ∙ ap (λ (x : WorkerResults). x.active_hosts) found;
    ended =
        let q = a.shares_pending ∙ ap (λ (x : WorkerResults). x.shares_pending) found in
        all_shares reached share more e (a.total ∙ ap (λ (x : WorkerResults). x.tasks_total) found)
          (omega (arith, a.finished, ap (λ (x : WorkerResults). x.tasks_finished) found))
          (omega (arith, a.success, ap (λ (x : WorkerResults). x.success) found))
          (a.errors ∙ ap (λ (x : WorkerResults). x.errors) found)
          (omega (int_laws, a.counted, ap pos_part q, ap neg_part q));
  }

false_if_negated : {b : Bool} → not b ≡ true → b ≡ false
false_if_negated {b = true} e = cc
false_if_negated {b = false} e = refl

true_if_negated : {b : Bool} → not b ≡ false → b ≡ true
true_if_negated {b = true} e = refl
true_if_negated {b = false} e = cc

open_session-none :
    (session : ℕ) (connects : Bool) (p : ConnectionPool)
    → (open_session session connects p).1 ≡ none
    → connects ≡ false
unfolding open_session
open_session-none session true p e = cc
open_session-none session false p e = refl

reuse_or_open-none :
    (pings : ℕ → Bool) (session : ℕ) (connects : Bool) (p : ConnectionPool) (o : Option ℕ)
    → (reuse_or_open pings session connects p o).1 ≡ none
    → connects ≡ false
unfolding reuse_or_open
reuse_or_open-none pings session connects p none e = open_session-none session connects p e
reuse_or_open-none pings session connects p (some conn) e = elim (Bool-cases (pings conn)) [
  | inl alive ↦ let e' = rw alive at e in cc
  | inr dead ↦ open_session-none session connects (forget conn p) (rw dead at e)
]

-- No session is handed out only where the new one does not connect.
get_connection-none :
    (pings : ℕ → Bool) (session : ℕ) (connects : Bool) (host : Text) (p : ConnectionPool)
    → (get_connection pings session connects host p).1 ≡ none
    → connects ≡ false
unfolding get_connection
get_connection-none pings session connects host p e =
    let (p', reused) = take_pooled host p in reuse_or_open-none pings session connects p' reused e

module _ {F : Type 0} (rt : Runtime F) (net : Network) (timeout : ℕ → Bool) (opts : Options)
    (fuel : ℕ) (rules : List (Rule F)) (target : Target) where
  -- `w` is the state that the processing starts from, and `v` a later one.
  abbrev Later : Work → Work → Type 0
  Later w v = (w.reads ≤ v.reads) × (v.results ≡ w.results) × IsSoundGraph v.graph

  module _ (host : Text) (w : Work) (reached : Reached net opts target) where
    with_shares-Accounted :
        (o : Option (List ShareInfo)) (conn : ℕ) (v : Work)
        → net.list_shares ≡ o
        → Later w v
        → v.pool.active_connections ≡ conn ∷ []
        → Post no_panic
            (Accounted net opts timeout target w)
            (with_shares rt net timeout opts fuel rules host target.value o conn v)
    unfolding with_shares
    with_shares-Accounted none conn v e (later, same, s) used =
        gave_up net opts timeout target w _
          (not_listed reached.host reached.resolved reached.port_open e) s
          (return_connection-active host conn v.pool used) (ap target_failed same)
    with_shares-Accounted (some []) conn v e (later, same, s) used =
        subst
          (λ (r : WorkerResults).
            Accounted net opts timeout target (record w { results = r })
              (with_results target_empty (give_back host conn (with_results (shares_found 0) v))))
          same
          record {
            graph = s;
            idle = return_connection-active host conn v.pool used;
            pending = omega int_laws;
            active = refl;
            ended = no_shares reached e (omega arith) refl refl refl (omega int_laws);
          }
    with_shares-Accounted (some (share ∷ more)) conn v e (later, same, s) used =
        let shares = share ∷ more in
        let u = give_back host conn (with_results (shares_found (length shares)) v) in
        Post->>= no_panic (Ran (length shares) (refused net opts shares) u no_totals)
          (Accounted net opts timeout target w)
          (run_shares rt net timeout opts fuel rules host target.value shares u no_totals) _
          (run_shares-Ran rt net timeout opts fuel rules host target.value shares u no_totals s
            (return_connection-active host conn v.pool used))
          λ r a.
            after_shares net opts timeout target share more w u r reached e
              (ap (shares_found (length shares)) same) a

    with_first-Accounted :
        (o : Option ℕ) (v : Work)
        → (o ≡ none → net.connects w.opened ≡ false)
        → Later w v
        → v.pool.active_connections ≡ in_use o
        → Post no_panic
            (Accounted net opts timeout target w)
            (with_first rt net timeout opts fuel rules host target.value (v, o))
    unfolding with_first
    with_first-Accounted none v lost (later, same, s) used =
        gave_up net opts timeout target w _
          (no_session reached.host reached.resolved reached.port_open (lost refl)) s used
          (ap target_failed same)
    with_first-Accounted (some conn) v lost (later, same, s) used =
        Post-if no_panic (Accounted net opts timeout target w) (timeout v.reads) _ _
          (λ set.
            stopped net opts timeout target v.reads w _ later set s
              (return_connection-active host conn v.pool used) same)
          λ _. with_shares-Accounted net.list_shares conn (read v) refl (omega arith, same, s) used

  with_address-Accounted :
      (o : Option Text) (w : Work)
      → address net opts target ≡ o
      → IsSoundGraph w.graph
      → w.pool.active_connections ≡ []
      → Post no_panic
          (Accounted net opts timeout target w)
          (with_address rt net timeout opts fuel rules target.value o w)
  unfolding with_address
  with_address-Accounted none w e s idle =
      gave_up net opts timeout target w _ (unresolved e) s idle refl
  with_address-Accounted (some host) w e s idle =
      let w1 = read w in
      let (v, o) = connection net host (read w1) in
      Post-if no_panic (Accounted net opts timeout target w) (timeout w.reads) _ _
        (λ set. stopped net opts timeout target w.reads w _ (omega arith) set s idle refl)
        λ _.
          Post-if no_panic (Accounted net opts timeout target w) (not (net.is_port_open host)) _ _
            (λ shut.
              gave_up net opts timeout target w _ (port_closed host e (false_if_negated shut)) s
                idle refl)
            λ opens.
              Post-if no_panic (Accounted net opts timeout target w) (timeout w1.reads) _ _
                (λ set. stopped net opts timeout target w1.reads w _ (omega arith) set s idle refl)
                λ _.
                  with_first-Accounted host w
                    (record { host = host; resolved = e; port_open = true_if_negated opens }) o v
                    (get_connection-none net.pings w.opened (net.connects w.opened) host w.pool)
                    (omega arith, refl, s)
                    (get_connection-active net.pings w.opened (net.connects w.opened) host w.pool
                      idle)

  pub process_target-Post :
      (w : Work)
      → IsSoundGraph w.graph
      → w.pool.active_connections ≡ []
      → Post no_panic
          (Accounted net opts timeout target w)
          (process_target rt net timeout opts fuel rules target w)
  unfolding process_target
  process_target-Post w s idle =
      let begun = with_results (host_begins target.value) w in
      Post->>= no_panic (Accounted net opts timeout target begun)
        (Accounted net opts timeout target w)
        (with_address rt net timeout opts fuel rules target.value (address net opts target) begun) _
        (with_address-Accounted (address net opts target) begun refl s idle)
        (λ v a. over net opts timeout target target.value w v a)

  -- When the processing of a target returns, from a sound graph and with no session in use, the graph
  -- is sound, no session is in use, and the tasks that are pending and the active hosts are as many as
  -- before. Either a read of the flag found it set and nothing is counted; or the name of the host was
  -- not resolved, its port is closed, no session was opened or the shares were not listed, and one task,
  -- its end and an error are counted; or the host that was reached lists no share, and one task, its end
  -- and a success are; or it lists some, and a success, a task for each share and one end more than
  -- these are counted, and the shares that got no semaphore stay pending.
  pub process_target-Accounted :
      (w v : Work)
      → IsSoundGraph w.graph
      → w.pool.active_connections ≡ []
      → process_target rt net timeout opts fuel rules target w ≡ ok v
      → Accounted net opts timeout target w v
  process_target-Accounted w v s idle e =
      Post-ok no_panic (Accounted net opts timeout target w)
        (process_target rt net timeout opts fuel rules target w) (process_target-Post w s idle) e
