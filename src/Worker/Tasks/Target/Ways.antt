-- ===== src/Worker/Tasks/Target/Ways.antt =====
-- The ways on which the processing of one target (Go/internal/worker/worker.go) ends.
use share_hound.Collector.Counts.{WorkerResults}
use share_hound.Prelude.{ℕ, true, false, ◌+◌, ◌≡◌, ◌≤◌, Bool, List, [], ◌∷◌, none, some, length}
use share_hound.Prelude.Int.{pos, ◌+ℤ◌}
use share_hound.Prelude.Text.{Text}
use share_hound.Worker.Tasks.Share.{IsSoundGraph}
use share_hound.Targets.{Target}
use share_hound.Worker.Tasks.Target.{address}
use share_hound.Worker.Tasks.{Options, ShareInfo, Network, Work}
use share_hound.Worker.Tasks.Target.Counters.{refused}

-- Why a target fails, on a host of some address: its name is not resolved, its port is closed, no session
-- is opened, whose number is `opened`, or the shares cannot be listed.
pub data Failure (net : Network) (opts : Options) (target : Target) (opened : ℕ) : Type 0 where
  unresolved : address net opts target ≡ none → Failure net opts target opened
  port_closed :
      (host : Text)
      → address net opts target ≡ some host
      → net.is_port_open host ≡ false
      → Failure net opts target opened
  no_session :
      (host : Text)
      → address net opts target ≡ some host
      → net.is_port_open host ≡ true
      → net.connects opened ≡ false
      → Failure net opts target opened
  not_listed :
      (host : Text)
      → address net opts target ≡ some host
      → net.is_port_open host ≡ true
      → net.list_shares ≡ none
      → Failure net opts target opened

-- The host answers: its name is resolved if need be, and its port is open.
pub record Reached (net : Network) (opts : Options) (target : Target) : Type 0 where
  pub host : Text
  pub resolved : address net opts target ≡ some host
  pub port_open : net.is_port_open host ≡ true

-- How the processing of a target that starts with the counters `r` and the read `first` of the flag,
-- and opens the session `opened` first, can end, with what has happened and the counters `s` of its tasks.
pub data Ended (net : Network) (opts : Options) (timeout : ℕ → Bool) (target : Target)
    (first opened : ℕ) (r s : WorkerResults) : Type 0 where
  timed_out :
      (i : ℕ)
      → first ≤ i
      → timeout i ≡ true
      → s.tasks_total ≡ r.tasks_total
      → s.tasks_finished ≡ r.tasks_finished
      → s.success ≡ r.success
      → s.errors ≡ r.errors
      → s.shares_pending ≡ r.shares_pending
      → Ended net opts timeout target first opened r s
  failed :
      Failure net opts target opened
      → s.tasks_total ≡ r.tasks_total + 1
      → s.tasks_finished ≡ r.tasks_finished + 1
      → s.success ≡ r.success
      → s.errors ≡ r.errors + 1
      → s.shares_pending ≡ r.shares_pending
      → Ended net opts timeout target first opened r s
  no_shares :
      Reached net opts target
      → net.list_shares ≡ some []
      → s.tasks_total ≡ r.tasks_total + 1
      → s.tasks_finished ≡ r.tasks_finished + 1
      → s.success ≡ r.success + 1
      → s.errors ≡ r.errors
      → s.shares_pending ≡ r.shares_pending
      → Ended net opts timeout target first opened r s
  all_shares :
      Reached net opts target
      → (share : ShareInfo) (more : List ShareInfo) → net.list_shares ≡ some (share ∷ more)
      → s.tasks_total ≡ r.tasks_total + length (share ∷ more)
      → s.tasks_finished ≡ r.tasks_finished + (length (share ∷ more) + 1)
      → s.success ≡ r.success + 1
      → s.errors ≡ r.errors
      → s.shares_pending ≡ r.shares_pending +ℤ pos (refused net opts (share ∷ more))
      → Ended net opts timeout target first opened r s

-- What every end has in common.
pub record Accounted (net : Network) (opts : Options) (timeout : ℕ → Bool) (target : Target)
    (w v : Work) : Type 0 where
  pub graph : IsSoundGraph v.graph
  pub idle : v.pool.active_connections ≡ []
  pub pending : v.results.tasks_pending ≡ w.results.tasks_pending
  pub active : v.results.active_hosts ≡ w.results.active_hosts
  pub ended : Ended net opts timeout target w.reads w.opened w.results v.results
