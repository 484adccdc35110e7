-- ===== src/Worker/Tasks/Target.antt =====
-- Go/internal/worker/worker.go: the processing of one target. The goroutines of its shares run one after
-- the other, in the order of the list of shares.
use share_hound.Collector.Contents.{WalkError, out_of_fuel}
use share_hound.Collector.Counts.{TraversalCounts, no_counts, add, WorkerResults}
use share_hound.Prelude.{
  ℕ, zero, suc, ltb, ◌+◌, Bool, true, false, not, ◌&&◌, ◌||◌, List, [], ◌∷◌, Option, none, some,
  if◌then◌else◌, length,
}
use share_hound.Prelude.Int.{ℤ, pos, ◌+ℤ◌, ◌-ℤ◌}
use share_hound.Prelude.Outcome.{Outcome, ok, err, panic, ◌>>=◌}
use share_hound.Prelude.Text.{Text, codes, eqb}
use share_hound.Rules.Evaluator.{Rule}
use share_hound.Rules.Value.{Runtime}
use share_hound.Targets.{Target}
use share_hound.Worker.Pool.{close_all}
use share_hound.Worker.Tasks.{
  Options, ShareInfo, Network, Work, read, give_back, connection, process_share,
}
pub mod Counters
pub mod Ways
pub mod Accounts
pub mod Returns

abbrev pub with_results : (WorkerResults → WorkerResults) → Work → Work
with_results f w = record w { results = f w.results }

-- `results.TasksPending--; results.TasksFinished++`
abbrev pub task_done : WorkerResults → WorkerResults
task_done r = record r {
  tasks_pending = r.tasks_pending -ℤ pos 1;
  tasks_finished = r.tasks_finished + 1;
}

-- `results.Errors++; results.TasksTotal++; results.TasksFinished++`
abbrev pub target_failed : WorkerResults → WorkerResults
target_failed r = record r {
  errors = r.errors + 1;
  tasks_total = r.tasks_total + 1;
  tasks_finished = r.tasks_finished + 1;
}

-- The same for a host that has no share.
abbrev pub target_empty : WorkerResults → WorkerResults
target_empty r = record r {
  success = r.success + 1;
  tasks_total = r.tasks_total + 1;
  tasks_finished = r.tasks_finished + 1;
}

-- `n` shares have been found.
abbrev pub shares_found : ℕ → WorkerResults → WorkerResults
shares_found n r = record r {
  tasks_total = r.tasks_total + n;
  tasks_pending = r.tasks_pending +ℤ pos n;
  shares_pending = r.shares_pending +ℤ pos n;
}

-- The variables that the goroutines of one target share.
pub record Totals : Type 0 where
  pub total_share_count : ℕ
  pub skipped_shares_count : ℕ
  pub counts : TraversalCounts

abbrev pub no_totals : Totals
no_totals = record { total_share_count = 0; skipped_shares_count = 0; counts = no_counts }

abbrev pub one_skipped : Totals → Totals
one_skipped t = record t { skipped_shares_count = t.skipped_shares_count + 1 }

abbrev pub one_processed : TraversalCounts → Totals → Totals
one_processed c t = record t {
  total_share_count = t.total_share_count + 1;
  counts = add t.counts c;
}

-- What is added to the counters when all the shares are done.
unfoldable pub target_done : Totals → WorkerResults → WorkerResults
target_done t r = record r {
  shares_total = r.shares_total + (t.total_share_count + t.skipped_shares_count);
  shares_processed = r.shares_processed + t.total_share_count;
  shares_skipped = r.shares_skipped + t.skipped_shares_count;
  shares_pending = r.shares_pending -ℤ pos (t.total_share_count + t.skipped_shares_count);
  files_total = r.files_total + (t.counts.total_files + t.counts.skipped_files);
  files_processed = r.files_processed + t.counts.processed_files;
  files_skipped = r.files_skipped + t.counts.skipped_files;
  directories_total =
      r.directories_total + (t.counts.total_directories + t.counts.skipped_directories);
  directories_processed = r.directories_processed + t.counts.processed_directories;
  directories_skipped = r.directories_skipped + t.counts.skipped_directories;
  success = r.success + 1;
  tasks_finished = r.tasks_finished + 1;
}

-- `delete(results.ActiveHostNames, name)`
unfoldable pub without_name : Text → List Text → List Text
without_name name [] = []
without_name name (n ∷ ns) =
    let rest = without_name name ns in if eqb n name then rest else n ∷ rest

-- The target becomes active, and is active no more.
abbrev pub host_begins : Text → WorkerResults → WorkerResults
host_begins name r = record r {
  active_hosts = r.active_hosts +ℤ pos 1;
  active_host_names = name ∷ without_name name r.active_host_names;
}

abbrev pub host_ends : Text → WorkerResults → WorkerResults
host_ends name r = record r {
  active_hosts = r.active_hosts -ℤ pos 1;
  active_host_names = without_name name r.active_host_names;
}

-- The address to connect to: `none` if a name has to be resolved and is not.
unfoldable pub address : Network → Options → Target → Option Text
address net opts target =
    if eqb target.type (codes "fqdn") && (not (eqb opts.nameserver []) || not (eqb opts.domain []))
    then elim (net.dns_resolve target.value opts.nameserver) [
      | none ↦ none
      | some resolved ↦ if eqb resolved [] then none else some resolved
    ]
    else some target.value

-- The deferred calls: the pool is closed, and the host is active no more.
abbrev pub finish : Text → Work → Work
finish name w = with_results (host_ends name) (record w { pool = (close_all w.pool).0 })

-- `hostSem.Acquire(semCtx, 1)` where it is not given the semaphore: it returns when the context is
-- cancelled. The goroutine that cancels it reads the flag until it is set; `steps` bounds its reads.
unfoldable pub wait_for_cancel : (ℕ → Bool) → ℕ → Work → Outcome WalkError Work
wait_for_cancel timeout zero w = err out_of_fuel
wait_for_cancel timeout (suc steps) w =
    let rest = wait_for_cancel timeout steps (read w) in
    if timeout w.reads then ok (read w) else rest

module _ {F : Type 0} (rt : Runtime F) (net : Network) (timeout : ℕ → Bool) (opts : Options) where
  module _ (fuel : ℕ) (rules : List (Rule F)) (host remote_name : Text) where
    -- `hostSem.Acquire(semCtx, 1)`, and whether it is given the semaphore. One of a size below 1 is
    -- given to nobody; one of another size is given when another share's goroutine releases it, if the
    -- context is not cancelled before.
    unfoldable pub acquire : ShareInfo → Work → Outcome WalkError (Work × Bool)
    unfolding wait_for_cancel
    acquire share w =
        if ltb 0 opts.max_workers_per_host
        then ok (w, net.acquires share.name)
        else (do w' ← wait_for_cancel timeout fuel w; ok (w', false))

    -- The goroutine of one share behind that.
    unfoldable pub run_acquired :
        ShareInfo → Totals → Work × Bool → Outcome WalkError (Work × Totals)
    run_acquired share t (w, false) = ok (with_results task_done w, t)
    run_acquired share t (w, true) =
        if timeout w.reads then ok (with_results task_done (read w), one_skipped t) else (do
          r ← process_share rt net timeout opts fuel rules host remote_name share (read w)
          ok (with_results task_done r.0, one_processed r.1 t))

    -- The goroutine of one share.
    unfoldable pub run_share : ShareInfo → Work → Totals → Outcome WalkError (Work × Totals)
    unfolding acquire run_acquired
    run_share share w t = acquire share w >>= λ a. run_acquired share t a

    unfoldable pub run_shares : List ShareInfo → Work → Totals → Outcome WalkError (Work × Totals)
    unfolding run_share
    run_shares [] w t = ok (w, t)
    run_shares (s ∷ shares) w t = do r ← run_share s w t; run_shares shares r.0 r.1

    -- From the list of the shares on, with the session that it was asked for on.
    unfoldable pub with_shares : Option (List ShareInfo) → ℕ → Work → Outcome WalkError Work
    unfolding run_shares
    with_shares none conn w = ok (with_results target_failed (give_back host conn w))
    with_shares (some []) conn w =
        ok (with_results target_empty (give_back host conn (with_results (shares_found 0) w)))
    with_shares (some (s ∷ shares)) conn w = do
      r ←
          run_shares (s ∷ shares)
            (give_back host conn (with_results (shares_found (length (s ∷ shares))) w)) no_totals
      ok (with_results (target_done r.1) r.0)

    -- From the first session on.
    unfoldable pub with_first : Work × Option ℕ → Outcome WalkError Work
    unfolding with_shares
    with_first (w, none) = ok (with_results target_failed w)
    with_first (w, some conn) =
        if timeout w.reads
        then ok (give_back host conn (read w))
        else with_shares net.list_shares conn (read w)

  -- From the resolution of the name on.
  unfoldable pub with_address :
      ℕ → List (Rule F) → Text → Option Text → Work → Outcome WalkError Work
  unfolding with_first
  with_address fuel rules remote_name none w = ok (with_results target_failed w)
  with_address fuel rules remote_name (some host) w =
      let w1 = read w in
      if timeout w.reads
      then ok w1
      else if not (net.is_port_open host)
      then ok (with_results target_failed w1)
      else if timeout w1.reads
      then ok (read w1)
      else with_first fuel rules host remote_name (connection net host (read w1))

  -- `ProcessTarget`
  unfoldable pub process_target : ℕ → List (Rule F) → Target → Work → Outcome WalkError Work
  unfolding with_address address
  process_target fuel rules target w = do
    w' ←
        with_address fuel rules target.value (address net opts target)
          (with_results (host_begins target.value) w)
    ok (finish target.value w')
