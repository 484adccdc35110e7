-- ===== src/Worker/Tasks/Tests.antt =====
-- One target with one share, processed as Go/internal/worker/worker.go does.
use share_hound.Collector.Contents.{out_of_fuel, Session}
use share_hound.Collector.Counts.{no_results}
use share_hound.Graph.OpenGraph.Consistent.{new_open_graph-Consistent}
use share_hound.Graph.OpenGraph.{new_open_graph}
use share_hound.Prelude.{
  ℕ, ◌≤◌, ◌≡◌, refl, Bool, true, false, List, [], ◌∷◌, none, some, arith, leb, ltb,
}
use share_hound.Prelude.Outcome.{err, ok, ◌>>=◌}
use share_hound.Prelude.Text.{codes, eqb}
use share_hound.Rules.Value.{Runtime}
use share_hound.Targets.{Target}
use share_hound.Worker.Pool.{new_connection_pool, get_connection, last_session, pooled}
use share_hound.Worker.Tasks.Share.{IsSoundGraph}
use share_hound.Worker.Tasks.Target.Accounts.{process_target-Accounted}
use share_hound.Worker.Tasks.Target.Ways.{Accounted}
use share_hound.Worker.Tasks.Target.Returns.{
  process_target-after_timeout, process_target-within_depth,
}
use share_hound.Worker.Tasks.Target.{process_target, target_done}
use share_hound.Worker.Tasks.{Options, Network, Work, after_dot, is_hidden}

abbrev whole : Runtime ℕ
whole = record {
  of_int = λ n. n;
  zero_float = 0;
  less = ltb;
  low_bits = λ n. n;
  scan = λ s. 0;
  compile = λ p. some (eqb p);
}

-- A file server on which every directory has a directory in it.
abbrev endless : Session
endless = record {
  remote_name = codes "srv.corp.com";
  set_share = λ s. true;
  list_contents = λ p. some (
      (codes "d", record { is_dir = true; size = 0; created_time = none; modified_time = none })
      ∷ []);
  file_descriptor = λ p. none;
  orders = λ p i. [];
}

abbrev network : Bool → Network
network acquires = record {
  dns_resolve = λ name server. some (codes "10.0.0.1");
  is_port_open = λ host. true;
  pings = λ conn. true;
  connects = λ conn. true;
  list_shares = some (record { name = codes "pub"; comment = [] } ∷ []);
  sessions = λ conn. endless;
  share_descriptor = λ name. none;
  root_descriptor = λ name. none;
  share_orders = λ name i. [];
  acquires = λ name. acquires;
}

abbrev options : ℕ → Options
options depth = record {
  depth = depth;
  nameserver = [];
  domain = codes "corp.com";
  max_workers_per_host = 2;
  effective_access_only = false;
}

abbrev target : Target
target = record { type = codes "fqdn"; value = codes "srv.corp.com" }

abbrev before : Work
before = record {
  graph = new_open_graph (codes "ShareHound");
  pool = new_connection_pool 2;
  opened = 0;
  results = no_results;
  reads = 0;
}

before-IsSoundGraph : IsSoundGraph before.graph
before-IsSoundGraph = (new_open_graph-Consistent (codes "ShareHound"), tt)

abbrev never : ℕ → Bool
never i = false

abbrev late : ℕ → Bool
late i = leb 9 i

late_set : (i : ℕ) → 9 ≤ i → late i ≡ true
late_set i h = ground arith

domain_of_name : after_dot (codes "srv.corp.com") ≡ some (codes "corp.com")
unfolding after_dot
domain_of_name = refl

hidden_share : is_hidden (codes "ADMIN$") ≡ true
unfolding is_hidden
hidden_share = refl

abbrev tasks : Work → List ℕ
tasks w = w.results.tasks_total ∷ w.results.tasks_finished ∷ []

-- One share: one task, and two ends.
one_task_two_ends :
    (process_target whole (network false) never (options 0) 1 [] target before >>= λ w.
    ok (tasks w))
    ≡ ok (1 ∷ 2 ∷ [])
unfolding process_target eqb get_connection last_session pooled target_done
one_task_two_ends = refl

-- With no worker for a host and no timeout, the goroutine of the share waits for ever.
no_worker_waits :
    process_target whole
      (network true)
      never
      (record (options 2) { max_workers_per_host = 0 })
      9
      []
      target
      before
    ≡ err out_of_fuel
unfolding process_target eqb get_connection last_session pooled target_done
no_worker_waits = refl

process_target-after_timeout_example :
    (v : Work) × (process_target whole (network true) late (options 0) 10 [] target before ≡ ok v)
process_target-after_timeout_example =
    process_target-after_timeout whole (network true) late (options 0) 10 9 [] target before
      before-IsSoundGraph refl late_set (omega arith)

process_target-within_depth_example :
    (v : Work) × (process_target whole (network true) never (options 2) 3 [] target before ≡ ok v)
process_target-within_depth_example =
    process_target-within_depth whole (network true) never (options 2) 3 [] target before
      before-IsSoundGraph refl (omega arith) (omega arith) (omega arith)

abbrev processed :
    (v : Work) × (process_target whole (network true) never (options 2) 3 [] target before ≡ ok v)
processed =
    process_target-within_depth whole (network true) never (options 2) 3 [] target before
      before-IsSoundGraph refl (omega arith) (omega arith) (omega arith)

process_target-Accounted_example :
    Accounted (network true) (options 2) never target before processed.0
process_target-Accounted_example =
    process_target-Accounted whole (network true) never (options 2) 3 [] target before processed.0
      before-IsSoundGraph refl processed.1
