-- ===== src/Worker/Tasks/Share.antt =====
-- The processing of one share (Go/internal/worker/worker.go): the graph, the counters of the tasks, and
-- the sessions.
use share_hound.Collector.Contents.Traverse.Counted.{Summed}
use share_hound.Collector.Contents.Traverse.Ends.{no_panic, Post, Post->>=, Post-if, Post-map, both}
use share_hound.Collector.Contents.Traverse.Evolution.{IsClean, Evolves-IsClean}
use share_hound.Collector.Contents.Traverse.Returns.{collect_contents_in_share-Summed}
use share_hound.Collector.Contents.Traverse.Sound.{collect_contents_at_depth-Grows}
use share_hound.Collector.Contents.Traverse.{collect_contents_in_share}
use share_hound.Collector.Contents.{Session, Walk}
use share_hound.Collector.Counts.{TraversalCounts, no_counts, other_counters}
use share_hound.Collector.Rights.{
  ShareRights, parsed_rights, collect_ntfs_rights, collect_share_rights,
}
use share_hound.Graph.Context.{
  Context, new_open_graph_context, set_share_rights, set_share_root_ntfs_rights, set_domain_suffix,
  set_share, set_host, set_effective_access_only,
}
use share_hound.Graph.Element.{Node, set_property}
use share_hound.Graph.Emission.Accounts.{AllAnchored}
use share_hound.Graph.Emission.Evolves.{Evolves, here, adds}
use share_hound.Graph.Emission.Steps.{if-elim}
use share_hound.Graph.Emission.Total.{add_path_to_graph-ok}
use share_hound.Graph.OpenGraph.Consistent.{Consistent}
use share_hound.Graph.OpenGraph.{OpenGraph}
use share_hound.Prelude.{
  ℕ, ◌≡◌, ◌≢◌, refl, ap, ◌∙◌, subst, Bool, true, false, not, List, [], Option, none, some,
  if◌then◌else◌,
}
use share_hound.Prelude.Outcome.{Outcome, ok, err, panic, >>=-ne-panic}
use share_hound.Prelude.Text.{Text, eqb, to_upper}
use share_hound.Rules.Evaluator.{
  Evaluator, Rule, share_object, new_evaluator, can_explore, can_process,
}
use share_hound.Rules.Evaluator
use share_hound.Rules.Value.{Runtime}
use share_hound.Smb.Bytes.{Bytes}
use share_hound.Smb.Descriptor.Safety.{parse_security_descriptor-ne-panic}
use share_hound.Smb.Descriptor.{DescriptorError, parse_security_descriptor}
use share_hound.Worker.Pool.Sessions.{in_use, get_connection-active, return_connection-active}
use share_hound.Worker.Pool.{ConnectionPool}
use share_hound.Worker.Tasks.{
  Options, ShareInfo, Network, Work, read, rule_share, after_dot, with_domain, host_node,
  share_node, rights_or_empty, share_context, connection, write_share, collect_share, with_session,
  process_share,
}

-- A graph whose index is right and whose edges end at its nodes.
abbrev pub IsSoundGraph : OpenGraph → Type 0
IsSoundGraph g = Consistent g × AllAnchored g

share_node-kinds : (name : Text) (share : ShareInfo) → (share_node name share).kinds ≢ []
unfolding share_node set_property
share_node-kinds name share h = cc

domain-elim :
    (P : Context → Type 0) (o : Option Text) (domain : Text) (c : Context)
    → ((suffix : Text) → P (record c { domain_suffix = suffix }))
    → P (elim o [
      | some rest ↦ set_domain_suffix rest c
      | none ↦ if eqb domain [] then c else set_domain_suffix domain c
    ])
domain-elim P none domain c h =
    if-elim P (eqb domain []) c (set_domain_suffix domain c) (λ _. h c.domain_suffix)
      (λ _. h (to_upper domain))
domain-elim P (some rest) domain c h = h (to_upper rest)

share_context-IsClean :
    (opts : Options) (name : Text) (share : ShareInfo) (g : OpenGraph) (rights root : ShareRights)
    → IsSoundGraph g
    → IsClean (
        set_share_root_ntfs_rights root (set_share_rights rights (share_context opts name share g)))
unfolding share_context with_domain
share_context-IsClean opts name share g rights root s =
    domain-elim
      (λ (c : Context). IsClean (
        set_share_root_ntfs_rights root (
          set_share_rights rights
            (set_share (share_node name share) (set_host (host_node name) c)))))
      (after_dot name) opts.domain
      (set_effective_access_only opts.effective_access_only (new_open_graph_context g))
      λ suffix. record {
        sound = record { consistent = s.0; anchored = s.1; ready = (tt, λ n e f. cc) };
        share_kind = λ n e.
            let same : share_node name share ≡ n = cc in
            subst (λ (x : Node). x.kinds ≢ []) same (share_node-kinds name share);
        element_kind = λ n e f. cc;
      }

rights_or_empty-Post :
    (r : Outcome DescriptorError ShareRights)
    → r ≢ panic
    → Post no_panic (λ x. Unit {0}) (rights_or_empty r)
rights_or_empty-Post (ok x) h = tt
rights_or_empty-Post (err e) h = tt
rights_or_empty-Post panic h = h refl

parsed_rights-ne-panic :
    (orders : ℕ → List (Text × ℕ)) (o : Option Bytes) → parsed_rights orders o ≢ panic
unfolding parsed_rights
parsed_rights-ne-panic orders none = λ e. cc
parsed_rights-ne-panic orders (some bs) =
    >>=-ne-panic (parse_security_descriptor bs) _ (parse_security_descriptor-ne-panic bs)
      (λ sd e q. cc)

pub collect_share_rights-Post :
    (orders : ℕ → List (Text × ℕ)) (a b : Option Bytes)
    → Post no_panic (λ r. Unit {0}) (rights_or_empty (collect_share_rights orders a b))
unfolding collect_share_rights
collect_share_rights-Post orders a b =
    rights_or_empty-Post (collect_share_rights orders a b) (parsed_rights-ne-panic orders _)

-- What the work on a share keeps, where the graph was sound before: while the session is held, and
-- in all, with `o` for the session in use before.
record Held (w : Work) (r : Work × TraversalCounts) : Type 0 where
  graph : IsSoundGraph r.0.graph
  others : other_counters r.0.results ≡ other_counters w.results
  pool : r.0.pool ≡ w.pool

pub record Kept (o : Option ℕ) (w : Work) (r : Work × TraversalCounts) : Type 0 where
  pub graph : IsSoundGraph r.0.graph
  pub others : other_counters r.0.results ≡ other_counters w.results
  pub released : w.pool.active_connections ≡ in_use o → r.0.pool.active_connections ≡ []

untouched :
    (w v : Work)
    → IsSoundGraph v.graph
    → v.results ≡ w.results
    → v.pool ≡ w.pool
    → Kept none w (v, no_counts)
untouched w v s results pool = record {
  graph = s;
  others = ap other_counters results;
  released = λ h. ap (λ (p : ConnectionPool). p.active_connections) pool ∙ h;
}

module _ {F : Type 0} (rt : Runtime F) (net : Network) (timeout : ℕ → Bool) (opts : Options) where
  write_share-IsClean :
      (b : Bool) (c : Context)
      → IsClean c
      → Post no_panic IsClean (write_share rt net timeout opts b c)
  unfolding write_share
  write_share-IsClean false c k = k
  write_share-IsClean true c k =
      let (c', e) = add_path_to_graph-ok c k.sound.ready k.share_kind k.element_kind in
      rw e (Evolves-IsClean (adds here e) k)

  collect_contents-Kept :
      (fuel : ℕ) (session : Session) (v : Walk F)
      → IsClean v.context
      → Post no_panic
          (λ r. Evolves v.context r.0.context × Summed timeout v r)
          (collect_contents_in_share rt session timeout opts.depth fuel v)
  unfolding collect_contents_in_share
  collect_contents-Kept fuel session v k =
      both (λ r. Evolves v.context r.0.context) (Summed timeout v)
        (collect_contents_in_share rt session timeout opts.depth fuel v)
        (collect_contents_at_depth-Grows rt session timeout opts.depth fuel 0 v k)
        (collect_contents_in_share-Summed rt session timeout opts.depth fuel v)

  collect_share-Held :
      (fuel : ℕ) (session : Session) (share : ShareInfo) (e : Evaluator F) (name : Text) (w : Work)
      → IsSoundGraph w.graph
      → Post no_panic (Held w) (
          collect_share rt net timeout opts fuel session share e
            (share_context opts name share w.graph)
            w)
  unfolding collect_share
  collect_share-Held fuel session share e name w s =
      let answer = can_process rt (share_object (rule_share share.name)) e in
      let root = collect_ntfs_rights (session.orders []) (session.file_descriptor []) in
      Post->>= no_panic (λ r. Unit {0}) (Held w)
        (rights_or_empty (
          collect_share_rights (net.share_orders share.name) (net.share_descriptor share.name)
            (net.root_descriptor share.name)))
        _ (collect_share_rights-Post _ _ _)
        λ rights _.
          let c =
            set_share_root_ntfs_rights root
              (set_share_rights rights (share_context opts name share w.graph)) in
          Post->>= no_panic IsClean (Held w) (write_share rt net timeout opts answer.1 c) _
            (write_share-IsClean answer.1 c
              (share_context-IsClean opts name share w.graph rights root s))
            λ c' k.
              let v : Walk F = record {
                context = c';
                evaluator = answer.0;
                results = w.results;
                reads = w.reads;
              } in
              Post->>= no_panic (λ r. Evolves v.context r.0.context × Summed timeout v r) (Held w)
                (collect_contents_in_share rt session timeout opts.depth fuel v) _
                (collect_contents-Kept fuel session v k)
                λ r (g, a).
                  let t = Evolves-IsClean g k in
                  record {
                    graph = (t.sound.consistent, t.sound.anchored);
                    others = a.others;
                    pool = refl;
                  }

  with_session-Kept :
      (fuel : ℕ) (host name : Text) (share : ShareInfo) (e : Evaluator F) (w : Work) (o : Option ℕ)
      → IsSoundGraph w.graph
      → Post no_panic (Kept o w) (with_session rt net timeout opts fuel host name share e (w, o))
  unfolding with_session
  with_session-Kept fuel host name share e w none s = record {
    graph = s;
    others = refl;
    released = λ h. h;
  }
  with_session-Kept fuel host name share e w (some conn) s =
      let session = net.sessions conn in
      let waits : Held w (read w, no_counts) = record { graph = s; others = refl; pool = refl } in
      Post->>= no_panic (Held w) (Kept (some conn) w) _ _
        (Post-if no_panic (Held w) (timeout w.reads) _ _ (λ _. waits)
          λ _.
            Post-if no_panic (Held w) (not (session.set_share share.name)) _ _ (λ _. waits)
              λ _.
                Post-map no_panic (Held (read w)) (Held w)
                  (collect_share rt net timeout opts fuel session share e
                    (share_context opts name share w.graph) (read w))
                  (λ r h. record { graph = h.graph; others = h.others; pool = h.pool })
                  (collect_share-Held fuel session share e name (read w) s))
        λ r h. record {
          graph = h.graph;
          others = h.others;
          released = λ q.
              return_connection-active host conn r.0.pool
                (ap (λ (p : ConnectionPool). p.active_connections) h.pool ∙ q);
        }

  pub process_share-Kept :
      (fuel : ℕ) (rules : List (Rule F)) (host name : Text) (share : ShareInfo) (w : Work)
      → IsSoundGraph w.graph
      → Post no_panic (Kept none w) (process_share rt net timeout opts fuel rules host name share w)
  unfolding process_share
  process_share-Kept fuel rules host name share w s =
      let object = rule_share share.name in
      let (e, explored) =
        can_explore rt (share_object object) (Evaluator.set_share object (new_evaluator rules)) in
      let w1 = read w in
      let v = (connection net host (read w1)).0 in
      let o = (connection net host (read w1)).1 in
      Post-if no_panic (Kept none w) (timeout w.reads) _ _ (λ _. untouched w (read w) s refl refl)
        λ _.
          Post-if no_panic (Kept none w) (not explored) _ _ (λ _. untouched w (read w) s refl refl)
            λ _.
              Post-if no_panic (Kept none w) (timeout w1.reads) _ _
                (λ _. untouched w (read w1) s refl refl)
                λ _.
                  Post-map no_panic (Kept o v) (Kept none w)
                    (with_session rt net timeout opts fuel host name share e (v, o))
                    (λ r k. record {
                      graph = k.graph;
                      others = k.others;
                      released = λ h. k.released (
                          get_connection-active net.pings w.opened (net.connects w.opened) host
                            w.pool h);
                    })
                    (with_session-Kept fuel host name share e v o s)
