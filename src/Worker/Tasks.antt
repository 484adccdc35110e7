-- ===== src/Worker/Tasks.antt =====
-- Go/internal/worker/worker.go: the processing of one share. What the host and the network answer is a
-- parameter. The flag of the timeout is read in the order of the code; the closing of all sessions by
-- its timer is left to the pool's own model. Log lines are left out.
use share_hound.Collector.Contents.Traverse.{collect_contents_in_share}
use share_hound.Collector.Contents.{Session, WalkError, Walk, no_error, set_context}
use share_hound.Collector.Counts.{TraversalCounts, no_counts, WorkerResults}
use share_hound.Collector.Rights.{ShareRights, collect_ntfs_rights, collect_share_rights}
use share_hound.Graph.Context.{
  Context, new_open_graph_context, set_effective_access_only, set_domain_suffix, set_host,
  set_share, set_share_rights, set_share_root_ntfs_rights,
}
use share_hound.Graph.Element.{Node, Value, text, flag, new_node, set_property}
use share_hound.Graph.Emission.{add_path_to_graph}
use share_hound.Graph.OpenGraph.{OpenGraph}
use share_hound.Kinds.{node_kind_network_share_host, node_kind_network_share_smb}
use share_hound.Prelude.{
  ℕ, ◌+◌, Bool, true, false, not, List, [], ◌∷◌, ◌++◌, Option, none, some, ◌==◌, if◌then◌else◌,
}
use share_hound.Prelude.Outcome.{Outcome, ok, err, panic, ◌>>=◌}
use share_hound.Prelude.Text.{Text, codes, eqb, to_lower}
use share_hound.Rules.Condition.{RuleObjectShare}
use share_hound.Rules.Evaluator.{
  Evaluator, Rule, RuleObject, share_object, new_evaluator, can_explore, can_process,
}
use share_hound.Rules.Evaluator
use share_hound.Rules.Value.{Runtime}
use share_hound.Smb.Bytes.{Bytes}
use share_hound.Smb.Descriptor.{DescriptorError}
use share_hound.Worker.Pool.{ConnectionPool, get_connection, return_connection}
pub mod Target
pub mod Share
mod Tests

-- The fields of `Options`, and of its credentials, that are read here. `depth` is not negative, and
-- `max_workers_per_host` is 0 where the source's is negative.
pub record Options : Type 0 where
  pub depth : ℕ
  pub nameserver : Text
  pub domain : Text
  pub max_workers_per_host : ℕ
  pub effective_access_only : Bool

-- `smb.ShareInfo` for one name.
pub record ShareInfo : Type 0 where
  pub name : Text
  pub comment : Text

-- What the network answers for one target: the address of a name, whether the port is open, whether a
-- pooled session answers a ping and a new one connects, the shares, the sessions by their numbers, the
-- descriptors of a share and of its root, and in which order the map of flags is iterated over for a
-- share. `acquires` is whether the goroutine of a share gets the semaphore, if that has room for one, before
-- the timeout; `none` is an error.
pub record Network : Type 0 where
  pub dns_resolve : Text → Text → Option Text
  pub is_port_open : Text → Bool
  pub pings : ℕ → Bool
  pub connects : ℕ → Bool
  pub list_shares : Option (List ShareInfo)
  pub sessions : ℕ → Session
  pub share_descriptor : Text → Option Bytes
  pub root_descriptor : Text → Option Bytes
  pub share_orders : Text → ℕ → List (Text × ℕ)
  pub acquires : Text → Bool

-- What the processing of a target changes: the graph, the pool of sessions and the number of the next
-- one, the shared counters, and how often the flag has been read.
pub record Work : Type 0 where
  pub graph : OpenGraph
  pub pool : ConnectionPool
  pub opened : ℕ
  pub results : WorkerResults
  pub reads : ℕ

abbrev pub read : Work → Work
read w = record w { reads = w.reads + 1 }

-- `len(shareName) > 0 && shareName[len(shareName)-1] == '$'`
unfoldable pub is_hidden : Text → Bool
is_hidden [] = false
is_hidden (c ∷ []) = c == b'$'
is_hidden (c ∷ d ∷ s) = is_hidden (d ∷ s)

-- `strings.SplitN(remoteName, ".", 2)`: what follows the first dot, if there is one
unfoldable pub after_dot : Text → Option Text
after_dot [] = none
after_dot (c ∷ s) = let rest = after_dot s in if c == b'.' then some s else rest

abbrev pub rule_share : Text → RuleObjectShare
rule_share name = record { name = name; description = []; hidden = is_hidden name }

-- The domain, from the name of the host or from the credentials.
unfoldable pub with_domain : Text → Text → Context → Context
with_domain remote_name domain c = elim (after_dot remote_name) [
  | some rest ↦ set_domain_suffix rest c
  | none ↦ if eqb domain [] then c else set_domain_suffix domain c
]

unfoldable pub host_node : Text → Node
host_node remote_name = set_property (codes "fqdn") (text remote_name) (
    set_property (codes "name") (text (remote_name ++ codes " (Network Share Host)"))
      (new_node (codes "NSHOST:" ++ to_lower remote_name) (node_kind_network_share_host ∷ [])))

unfoldable pub share_node : Text → ShareInfo → Node
unfolding is_hidden
share_node remote_name share = set_property (codes "hidden") (flag (is_hidden share.name)) (
    set_property (codes "description") (text share.comment) (
      set_property (codes "displayName") (text share.name) (
        new_node (codes "\\\\" ++ (remote_name ++ (codes "\\" ++ (share.name ++ codes "\\"))))
          (node_kind_network_share_smb ∷ []))))

-- `if err != nil { … }` on the rights of a share: an error comes with the empty map.
abbrev pub rights_or_empty : Outcome DescriptorError ShareRights → Outcome WalkError ShareRights
rights_or_empty (ok rights) = ok rights
rights_or_empty (err e) = ok []
rights_or_empty panic = panic

-- The context of a share before its rights are known.
unfoldable pub share_context : Options → Text → ShareInfo → OpenGraph → Context
unfolding with_domain host_node share_node
share_context opts remote_name share graph = set_share (share_node remote_name share) (
    set_host (host_node remote_name) (
      with_domain remote_name opts.domain
        (set_effective_access_only opts.effective_access_only (new_open_graph_context graph))))

-- `defer pool.ReturnConnection(host, conn)`
abbrev pub give_back : Text → ℕ → Work → Work
give_back host conn w = record w { pool = (return_connection host conn w.pool).0 }

-- `pool.GetConnection(…)`
abbrev pub connection : Network → Text → Work → Work × Option ℕ
connection net host w =
    let (pool, conn, closed) =
      get_connection net.pings w.opened (net.connects w.opened) host w.pool in
    (record w { pool = pool; opened = w.opened + 1 }, conn)

module _ {F : Type 0} (rt : Runtime F) (net : Network) (timeout : ℕ → Bool) (opts : Options) where
  -- `if rulesEval.CanProcess(ruleShare) { ogc.AddPathToGraph() }`
  unfoldable pub write_share : Bool → Context → Outcome WalkError Context
  write_share false c = ok c
  write_share true c = no_error (add_path_to_graph c)

  -- From the rights of the share on, on an evaluator whose share is set.
  unfoldable pub collect_share :
      ℕ
      → Session
      → ShareInfo
      → Evaluator F
      → Context
      → Work
      → Outcome WalkError (Work × TraversalCounts)
  unfolding write_share
  collect_share fuel session share e c w = do
    rights ← rights_or_empty (
        collect_share_rights (net.share_orders share.name) (net.share_descriptor share.name)
          (net.root_descriptor share.name))
    let root = collect_ntfs_rights (session.orders []) (session.file_descriptor [])
    let answer = can_process rt (share_object (rule_share share.name)) e
    c' ← write_share answer.1 (set_share_root_ntfs_rights root (set_share_rights rights c))
    r ←
        collect_contents_in_share rt session timeout opts.depth fuel
          (record { context = c'; evaluator = answer.0; results = w.results; reads = w.reads })
    ok (record w { graph = r.0.context.graph; results = r.0.results; reads = r.0.reads }, r.1)

  -- `defer pool.ReturnConnection(host, conn)` on the result of what follows it
  abbrev pub then_give_back :
      Text
      → ℕ
      → Outcome WalkError (Work × TraversalCounts)
      → Outcome WalkError (Work × TraversalCounts)
  then_give_back host conn m = do r ← m; ok (give_back host conn r.0, r.1)

  -- From the session on.
  unfoldable pub with_session :
      ℕ
      → Text
      → Text
      → ShareInfo
      → Evaluator F
      → Work × Option ℕ
      → Outcome WalkError (Work × TraversalCounts)
  unfolding collect_share share_context
  with_session fuel host remote_name share e (w, none) = ok (w, no_counts)
  with_session fuel host remote_name share e (w, some conn) =
      let session = net.sessions conn in
      let c = share_context opts remote_name share w.graph in
      then_give_back host conn (
        if timeout w.reads
        then ok (read w, no_counts)
        else if not (session.set_share share.name)
        then ok (read w, no_counts)
        else collect_share fuel session share e c (read w))

  -- `processShare`
  unfoldable pub process_share :
      ℕ
      → List (Rule F)
      → Text
      → Text
      → ShareInfo
      → Work
      → Outcome WalkError (Work × TraversalCounts)
  unfolding with_session is_hidden
  process_share fuel rules host remote_name share w =
      let object = rule_share share.name in
      let (e, explored) =
        can_explore rt (share_object object) (Evaluator.set_share object (new_evaluator rules)) in
      let w1 = read w in
      if timeout w.reads
      then ok (w1, no_counts)
      else if not explored
      then ok (w1, no_counts)
      else if timeout w1.reads
      then ok (read w1, no_counts)
      else with_session fuel host remote_name share e (connection net host (read w1))
