-- ===== src/Graph/Context.antt =====
-- Go/internal/graph/context.go: the state of the context of one share, its setters, and the stack of
-- directories. The graph is shared by pointer; here it is a field. `set_…` on a node takes no nil.
use share_hound.Collector.Rights.{ShareRights, rights_of}
use share_hound.Graph.Element.{
  Value, constant, Node, Edge, get_string_property, new_edge, set_start_match_by, set_end_match_by,
  set_start_kind, set_end_kind, set_edge_property,
}
use share_hound.Graph.OpenGraph.{OpenGraph, add_node, add_edge}
use share_hound.Kinds.Descriptions.{description}
use share_hound.Kinds.{
  edge_kind_contains, edge_kind_has_network_share, edge_kind_hosts_network_share,
  node_kind_directory, node_kind_network_share_host,
}
use share_hound.Prelude.{
  ℕ, ◌+◌, Bool, true, false, not, ◌&&◌, List, [], ◌∷◌, ◌++◌, Option, none, some, if◌then◌else◌,
}
use share_hound.Prelude.Outcome.{Outcome, ok, err, panic, ◌>>=◌}
use share_hound.Prelude.Text.{Text, codes, eqb, elem, to_upper, join}
use share_hound.Smb.AccessMask.{compute_effective_rights}
use share_hound.Smb.Sid.{is_domain_sid}
pub mod Stack

pub record PathEntry : Type 0 where
  pub node : Node
  pub rights : ShareRights

pub record Context : Type 0 where
  pub graph : OpenGraph
  pub host : Option Node
  pub share : Option Node
  pub share_rights : ShareRights
  pub share_root_ntfs_rights : ShareRights
  pub path : List PathEntry
  pub element : Option Node
  pub element_rights : ShareRights
  pub total_edges_created : ℕ
  pub host_share_emitted : Bool
  pub emitted_path_nodes : List Text
  pub domain_suffix : Text
  pub effective_access_only : Bool

-- `NewOpenGraphContext`
abbrev pub new_open_graph_context : OpenGraph → Context
new_open_graph_context graph = record {
  graph = graph;
  host = none;
  share = none;
  share_rights = [];
  share_root_ntfs_rights = [];
  path = [];
  element = none;
  element_rights = [];
  total_edges_created = 0;
  host_share_emitted = false;
  emitted_path_nodes = [];
  domain_suffix = [];
  effective_access_only = false;
}

-- `SetDomainSuffix`
abbrev pub set_domain_suffix : Text → Context → Context
set_domain_suffix domain c = record c { domain_suffix = to_upper domain }

-- `SetHost`
abbrev pub set_host : Node → Context → Context
set_host host c = record c { host = some host }

-- `SetShare`
abbrev pub set_share : Node → Context → Context
set_share share c = record c { share = some share }

-- `SetShareRights`
abbrev pub set_share_rights : ShareRights → Context → Context
set_share_rights rights c = record c { share_rights = rights }

-- `SetShareRootNTFSRights`
abbrev pub set_share_root_ntfs_rights : ShareRights → Context → Context
set_share_root_ntfs_rights rights c = record c { share_root_ntfs_rights = rights }

-- `SetEffectiveAccessOnly`
abbrev pub set_effective_access_only : Bool → Context → Context
set_effective_access_only v c = record c { effective_access_only = v }

-- `PushPath`
abbrev pub push_path : Node → ShareRights → Context → Context
push_path node rights c = record c {
  path = c.path ++ (record { node = node; rights = rights } ∷ []);
}

-- The last entry of a stack and the entries below it.
unfoldable pub split_last : List PathEntry → Option (List PathEntry × PathEntry)
split_last [] = none
split_last (e ∷ []) = some ([], e)
split_last (e ∷ f ∷ es) = elim (split_last (f ∷ es)) [
  | none ↦ none
  | some (below, top) ↦ some (e ∷ below, top)
]

-- `PopPath`
unfoldable pub pop_path : Context → Context × Option Node
pop_path c = elim (split_last c.path) [
  | none ↦ (c, none)
  | some (below, top) ↦ (record c { path = below }, some top.node)
]

-- `ClearPath`
abbrev pub clear_path : Context → Context
clear_path c = record c { path = [] }

-- `SetDirectoryRights`, on rights that are not nil
unfoldable pub set_directory_rights : ShareRights → Context → Context
set_directory_rights rights c = elim (split_last c.path) [
  | none ↦ c
  | some (below, top) ↦ record c { path = below ++ (record top { rights = rights } ∷ []) }
]

-- `SetElement`
abbrev pub set_element : Node → Context → Context
set_element element c = record c { element = some element }

-- `SetElementRights`
abbrev pub set_element_rights : ShareRights → Context → Context
set_element_rights rights c = record c { element_rights = rights }

-- `ClearElement`
abbrev pub clear_element : Context → Context
clear_element c = record c { element = none; element_rights = [] }

-- The names of the directories on the path that have one.
unfoldable pub path_names : List PathEntry → List Text
path_names [] = []
path_names (e ∷ es) =
    let name = get_string_property (codes "name") e.node in
    let rest = path_names es in if eqb name [] then rest else name ∷ rest

-- `GetStringPathFromRoot`
unfoldable pub get_string_path_from_root : Context → Text
unfolding path_names
get_string_path_from_root c = join (codes "\\") (path_names c.path)

-- `BuildUNCPath`; `filepath.ToSlash` is the identity where the separator is a slash.
unfoldable pub build_unc_path : Text → Text → Text → Text
build_unc_path host share path =
    let base = codes "\\\\" ++ (host ++ (codes "\\" ++ share)) in
    if eqb path [] then base ++ codes "\\" else base ++ (codes "\\" ++ path)
