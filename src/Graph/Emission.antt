-- ===== src/Graph/Emission.antt =====
-- Go/internal/graph/context.go: `AddPathToGraph`, which writes the host and the share, the directories
-- on the path and the current element to the graph, with their rights. Map iteration takes the pairs in
-- the order of the list. Log lines are left out.
use share_hound.Collector.Rights.{ShareRights, rights_of}
use share_hound.Graph.Element.{
  Value, constant, Node, Edge, get_string_property, new_edge, set_start_match_by, set_end_match_by,
  set_start_kind, set_end_kind, set_edge_property,
}
use share_hound.Graph.OpenGraph.{OpenGraph, add_node, add_edge}
use share_hound.Kinds.Descriptions.{description}
use share_hound.Kinds.{
  edge_kind_contains, edge_kind_has_network_share, edge_kind_hosts_network_share,
  node_kind_directory, node_kind_network_share_host,
}
use share_hound.Prelude.{
  ℕ, ◌+◌, Bool, true, false, not, ◌&&◌, List, [], ◌∷◌, ◌++◌, Option, none, some, if◌then◌else◌,
}
use share_hound.Prelude.Outcome.{Outcome, ok, err, panic, ◌>>=◌}
use share_hound.Prelude.Text.{Text, codes, eqb, elem, to_upper, join}
use share_hound.Smb.AccessMask.{compute_effective_rights}
use share_hound.Smb.Sid.{is_domain_sid}
use share_hound.Graph.Context.{Context, PathEntry}
pub mod Writes
pub mod Steps
pub mod Emit
pub mod Accounts
pub mod Total
pub mod Evolves
pub mod Written

-- `c.graph.AddNodeWithoutValidation(node)`
abbrev pub emit_node : Node → Context → Context
emit_node n c = record c { graph = add_node n c.graph }

-- `if c.graph.AddEdgeWithoutValidation(edge) { c.totalEdgesCreated++ }`
unfoldable pub emit_edge : Edge → Context → Context
emit_edge e c =
    let (graph, written) = add_edge e c.graph in
    record c {
      graph = graph;
      total_edges_created = if written then c.total_edges_created + 1 else c.total_edges_created;
    }

-- `if desc, ok := kinds.EdgeDescriptions[kind]; ok { edge.SetProperty("description", desc) }`
unfoldable pub describe : Text → Edge → Edge
describe kind e = elim (description kind) [
  | none ↦ e
  | some d ↦ set_edge_property (codes "description") (constant d) e
]

-- The SID as it stands in an edge.
unfoldable pub edge_sid : Text → Text → Text
edge_sid suffix sid =
    if not (eqb suffix []) && not (is_domain_sid sid) then suffix ++ (b'-' ∷ sid) else sid

abbrev pub rights_edge : Text → Text → Text → Text → Edge
rights_edge sid element_id node_kind edge_kind =
    describe edge_kind (set_end_kind node_kind (new_edge sid element_id edge_kind))

-- The loop over the kinds of one SID.
unfoldable pub add_kind_edges : Text → Text → Text → List Text → Context → Context
add_kind_edges sid element_id node_kind [] c = c
add_kind_edges sid element_id node_kind (k ∷ edge_kinds) c =
    add_kind_edges sid element_id node_kind edge_kinds
      (emit_edge (rights_edge sid element_id node_kind k) c)

-- `AddRightsToGraph`; nil and empty rights differ in the log only.
unfoldable pub add_rights_to_graph : Text → ShareRights → Text → Context → Context
add_rights_to_graph element_id [] node_kind c = c
add_rights_to_graph element_id ((sid, edge_kinds) ∷ rights) node_kind c =
    add_rights_to_graph element_id rights node_kind
      (add_kind_edges (edge_sid c.domain_suffix sid) element_id node_kind edge_kinds c)

-- `AddEffectiveRightsToGraph`; a SID with no effective rights adds nothing.
unfoldable pub add_effective_rights_to_graph : Text → ShareRights → Text → Context → Context
add_effective_rights_to_graph node_id [] node_kind c = c
add_effective_rights_to_graph node_id ((sid, ntfs_kinds) ∷ rights) node_kind c =
    let effective = compute_effective_rights (rights_of sid c.share_rights) ntfs_kinds in
    add_effective_rights_to_graph node_id rights node_kind
      (add_kind_edges (edge_sid c.domain_suffix sid) node_id node_kind effective c)

-- Both kinds of rights of a directory or a file.
unfoldable pub add_node_rights : Text → ShareRights → Text → Context → Context
add_node_rights id rights kind c =
    add_effective_rights_to_graph id rights kind
      (if c.effective_access_only then c else add_rights_to_graph id rights kind c)

abbrev pub plain_host_edge : Node → Edge
plain_host_edge h = set_end_kind node_kind_network_share_host (
    set_end_match_by (codes "id") (
      set_start_kind (codes "Computer") (
        set_start_match_by (codes "name") (
          new_edge (to_upper (get_string_property (codes "fqdn") h)) h.id
            edge_kind_hosts_network_share))))

abbrev pub host_edge : Node → Edge
host_edge h = describe edge_kind_hosts_network_share (plain_host_edge h)

abbrev pub share_edge : Node → Node → Text → Edge
share_edge h s share_kind = describe edge_kind_has_network_share (
    set_end_kind share_kind (
      set_start_kind node_kind_network_share_host
        (set_start_match_by (codes "id") (new_edge h.id s.id edge_kind_has_network_share))))

abbrev pub contains_edge : Text → Text → Text → Text → Edge
contains_edge parent_id parent_kind id kind =
    describe edge_kind_contains
      (set_end_kind kind (set_start_kind parent_kind (new_edge parent_id id edge_kind_contains)))

-- The host, the share and the rights on it, once.
unfoldable pub emit_host_share : Node → Node → Text → Context → Context
emit_host_share h s share_kind c =
    if c.host_share_emitted
    then c
    else let c1 = emit_node h (record c { host_share_emitted = true }) in
      let c2 = emit_node s (emit_edge (host_edge h) c1) in
      emit_edge (share_edge h s share_kind) (add_rights_to_graph s.id c2.share_rights share_kind c2)

-- `c.emittedPathNodes[id] = struct{}{}`
abbrev pub mark_emitted : Text → Context → Context
mark_emitted id c = record c { emitted_path_nodes = id ∷ c.emitted_path_nodes }

-- One directory of the path.
unfoldable pub emit_directory : Text → Text → PathEntry → Context → Context
emit_directory parent_id parent_kind e c =
    if elem e.node.id c.emitted_path_nodes
    then c
    else emit_edge (contains_edge parent_id parent_kind e.node.id node_kind_directory) (
        add_node_rights e.node.id e.rights node_kind_directory
          (emit_node e.node (mark_emitted e.node.id c)))

-- The loop over the path: the new context, and the id and kind of the last parent.
unfoldable pub emit_path : Text → Text → List PathEntry → Context → Context × (Text × Text)
emit_path parent_id parent_kind [] c = (c, (parent_id, parent_kind))
emit_path parent_id parent_kind (e ∷ es) c =
    emit_path e.node.id node_kind_directory es (emit_directory parent_id parent_kind e c)

-- `node.Kinds[0]`, which panics if there is none
unfoldable pub first_kind : Node → Outcome ⊥ Text
first_kind n = elim n.kinds [ [] ↦ panic | k ∷ ks ↦ ok k ]

-- The element: a directory that was written as part of a path is left alone.
unfoldable pub emit_element : Text → Text → Node → Text → Context → Context
emit_element parent_id parent_kind n kind c =
    let is_directory = eqb kind node_kind_directory in
    if is_directory && elem n.id c.emitted_path_nodes
    then c
    else let c' =
        emit_edge (contains_edge parent_id parent_kind n.id kind)
          (add_node_rights n.id c.element_rights kind (emit_node n c)) in
      if is_directory then mark_emitted n.id c' else c'

-- From the path on, with the kind of the share.
unfoldable pub emit_below : Node → Text → Context → Outcome ⊥ Context
emit_below s share_kind c =
    let (c', (parent_id, parent_kind)) = emit_path s.id share_kind c.path c in
    elim c'.element [
      | none ↦ ok c'
      | some n ↦ do kind ← first_kind n; ok (emit_element parent_id parent_kind n kind c')
    ]

-- `AddPathToGraph`
unfoldable pub add_path_to_graph : Context → Outcome ⊥ Context
add_path_to_graph c = elim c.host [
  | none ↦ ok c
  | some h ↦ elim c.share [
    | none ↦ ok c
    | some s ↦ do kind ← first_kind s; emit_below s kind (emit_host_share h s kind c)
  ]
]
