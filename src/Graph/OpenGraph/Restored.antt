-- ===== src/Graph/OpenGraph/Restored.antt =====
-- `RestoreNodesAndEdges` (Go/internal/graph/opengraph.go) on nodes and edges of different ids and keys.
use mathlib.Core.List.{append-nil, append_assoc}
use native.Mathlib.Nat.{add-zero}
use share_hound.Graph.Element.{Node, Edge}
use share_hound.Graph.OpenGraph.Consistent.{ids, keys}
use share_hound.Graph.OpenGraph.Keys.{UniqueIds, UniqueKeys, key_eqb_iff, has_key-append}
use share_hound.Graph.OpenGraph.{
  EdgeKey, new_edge_key, has_key, OpenGraph, new_open_graph, add_edge, restore_nodes, restore_edges,
  restore_nodes_and_edges,
}
use share_hound.Prelude.{suc, ◌+◌, ◌≡◌, refl, ap, ◌∙◌, false, List, [], ◌∷◌, ◌++◌, length, arith}
use share_hound.Prelude.Text.{Text, eqb_iff, elem, elem-append}

-- No member of the second list is in the first.
abbrev FreshIds : List Text → List Text → Type 0
FreshIds seen [] = Unit
FreshIds seen (x ∷ xs) = (elem x seen ≡ false) × FreshIds seen xs

FreshIds-snoc :
    (seen xs : List Text) (x : Text)
    → FreshIds seen xs
    → elem x xs ≡ false
    → FreshIds (seen ++ (x ∷ [])) xs
unfolding elem
FreshIds-snoc seen [] x h n = tt
FreshIds-snoc seen (y ∷ ys) x (h, hs) n = (
  ground (arith, elem-append y seen (x ∷ []), eqb_iff x y, eqb_iff y x),
  FreshIds-snoc seen ys x hs (ground arith),
)

restore_nodes_lem :
    (ns : List Node) (g : OpenGraph)
    → FreshIds g.node_ids (ids ns)
    → UniqueIds (ids ns)
    → restore_nodes ns g
      ≡ record g { node_ids = g.node_ids ++ ids ns; node_file = g.node_file ++ ns }
unfolding restore_nodes
restore_nodes_lem [] g f u = rw (append-nil g.node_ids, append-nil g.node_file)
restore_nodes_lem (n ∷ ns) g (new, f) (later, u) =
    let g' = record g {
      node_ids = g.node_ids ++ (n.id ∷ []);
      node_file = g.node_file ++ (n ∷ []);
    } in
    rw new (
      restore_nodes_lem ns g' (FreshIds-snoc g.node_ids (ids ns) n.id f later) u
      ∙ rw (append_assoc, append_assoc))

abbrev FreshKeys : List EdgeKey → List EdgeKey → Type 0
FreshKeys seen [] = Unit
FreshKeys seen (x ∷ xs) = (has_key x seen ≡ false) × FreshKeys seen xs

FreshKeys-snoc :
    (seen xs : List EdgeKey) (x : EdgeKey)
    → FreshKeys seen xs
    → has_key x xs ≡ false
    → FreshKeys (seen ++ (x ∷ [])) xs
unfolding has_key
FreshKeys-snoc seen [] x h n = tt
FreshKeys-snoc seen (y ∷ ys) x (h, hs) n = (
  ground (arith, has_key-append y seen (x ∷ []), key_eqb_iff x y, key_eqb_iff y x),
  FreshKeys-snoc seen ys x hs (ground arith),
)

restore_edges_lem :
    (es : List Edge) (g : OpenGraph)
    → FreshKeys g.edge_keys (keys es)
    → UniqueKeys (keys es)
    → restore_edges es g ≡ record g {
      edge_keys = g.edge_keys ++ keys es;
      edge_count = g.edge_count + length es;
      edge_file = g.edge_file ++ es;
    }
unfolding restore_edges add_edge
restore_edges_lem [] g f u = rw (append-nil g.edge_keys, append-nil g.edge_file, add-zero)
restore_edges_lem (e ∷ es) g (new, f) (later, u) =
    let key = new_edge_key e in
    let g' = record g {
      edge_keys = g.edge_keys ++ (key ∷ []);
      edge_count = g.edge_count + 1;
      edge_file = g.edge_file ++ (e ∷ []);
    } in
    let count : g.edge_count + 1 + length es ≡ g.edge_count + suc (length es) = omega arith in
    rw new (
      restore_edges_lem es g' (FreshKeys-snoc g.edge_keys (keys es) key f later) u
      ∙ rw (append_assoc, append_assoc, count))

FreshIds-nil : (xs : List Text) → FreshIds [] xs
unfolding elem
FreshIds-nil [] = tt
FreshIds-nil (x ∷ xs) = (refl, FreshIds-nil xs)

FreshKeys-nil : (xs : List EdgeKey) → FreshKeys [] xs
unfolding has_key
FreshKeys-nil [] = tt
FreshKeys-nil (x ∷ xs) = (refl, FreshKeys-nil xs)

-- Restoring any nodes and edges of different ids and keys.
pub restored :
    (ns : List Node) (es : List Edge) (other : OpenGraph)
    → UniqueIds (ids ns)
    → UniqueKeys (keys es)
    → restore_nodes_and_edges ns es other ≡ record {
      source_kind = other.source_kind;
      node_ids = ids ns;
      edge_keys = keys es;
      edge_count = 0 + length es;
      node_file = ns;
      edge_file = es;
    }
unfolding restore_nodes_and_edges
restored ns es other u v =
    let start = new_open_graph other.source_kind in
    let with_nodes = record start { node_ids = ids ns; node_file = ns } in
    ap (restore_edges es) (restore_nodes_lem ns start (FreshIds-nil (ids ns)) u)
    ∙ restore_edges_lem es with_nodes (FreshKeys-nil (keys es)) v
