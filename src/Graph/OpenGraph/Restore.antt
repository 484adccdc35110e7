-- ===== src/Graph/OpenGraph/Restore.antt =====
-- `GetNodesAndEdges` and `RestoreNodesAndEdges` (Go/internal/graph/opengraph.go) one after the other.
use share_hound.Graph.Element.{Node, Edge}
use share_hound.Graph.Json.{Json, Encoding, reread}
use share_hound.Graph.Marshal.Plain.{
  PlainKeys, PlainNode, PlainEdge, reread-marshal_node, reread-marshal_edge,
}
use share_hound.Graph.Marshal.RoundTrip.{
  read_node, read_edge, marshal_node-read_node, marshal_edge-read_edge, unmarshal_node-marshal_node,
  unmarshal_edge-marshal_edge,
}
use share_hound.Graph.Marshal.{marshal_node, marshal_edge, unmarshal_node, unmarshal_edge}
use share_hound.Graph.OpenGraph.Consistent.{Consistent, ids, keys}
use share_hound.Graph.OpenGraph.Keys.{UniqueIds, UniqueKeys}
use share_hound.Graph.OpenGraph.{
  EdgeKey, new_edge_key, OpenGraph, restore_nodes_and_edges, get_nodes_and_edges, decode_line,
  decode_lines,
}
use share_hound.Prelude.{
  suc, ◌≡◌, refl, sym, subst, All, map, Option, some, ap, ◌∙◌, List, [], ◌∷◌, length, arith,
}
use share_hound.Prelude.Text.{Text}
use share_hound.Graph.OpenGraph.Restored.{restored}

-- Two graphs with the same source kind, indexes and count, and the same JSON lines.
pub record SameGraph (g h : OpenGraph) : Type 0 where
  pub source_kind : g.source_kind ≡ h.source_kind
  pub node_ids : g.node_ids ≡ h.node_ids
  pub edge_keys : g.edge_keys ≡ h.edge_keys
  pub edge_count : g.edge_count ≡ h.edge_count
  pub node_lines : map marshal_node g.node_file ≡ map marshal_node h.node_file
  pub edge_lines : map marshal_edge g.edge_file ≡ map marshal_edge h.edge_file

-- Each node and each edge of a graph is plain.
pub record IsPlain (enc : Encoding) (g : OpenGraph) : Type 0 where
  pub keys : PlainKeys enc
  pub nodes : All (PlainNode enc) g.node_file
  pub edges : All (PlainEdge enc) g.edge_file

decode_step :
    {A : Type 0} (decode : Json → Option A) (line : Json) (lines : List Json) (a : A)
    (read : List A)
    → decode line ≡ some a
    → decode_lines decode lines ≡ read
    → decode_lines decode (line ∷ lines) ≡ a ∷ read
unfolding decode_lines
decode_step decode line lines a read e k =
    ap (λ d. decode_line d (decode_lines decode lines)) e ∙ ap (λ r. a ∷ r) k

-- A plain node and a plain edge, written to a file and read.
pub read_back_node :
    (enc : Encoding) (n : Node)
    → PlainKeys enc
    → PlainNode enc n
    → unmarshal_node (reread enc (marshal_node n)) ≡ some (read_node n)
read_back_node enc n k p =
    ap unmarshal_node (reread-marshal_node enc k n p) ∙ unmarshal_node-marshal_node n

pub read_back_edge :
    (enc : Encoding) (e : Edge)
    → PlainKeys enc
    → PlainEdge enc e
    → unmarshal_edge (reread enc (marshal_edge e)) ≡ some (read_edge e)
read_back_edge enc e k p =
    ap unmarshal_edge (reread-marshal_edge enc k e p) ∙ unmarshal_edge-marshal_edge e

decode_nodes :
    (enc : Encoding) (ns : List Node)
    → PlainKeys enc
    → All (PlainNode enc) ns
    → decode_lines unmarshal_node (map (λ n. reread enc (marshal_node n)) ns) ≡ map read_node ns
unfolding decode_lines
decode_nodes enc [] k p = refl
decode_nodes enc (n ∷ ns) k (a, p) =
    decode_step unmarshal_node _ _ _ _ (read_back_node enc n k a) (decode_nodes enc ns k p)

decode_edges :
    (enc : Encoding) (es : List Edge)
    → PlainKeys enc
    → All (PlainEdge enc) es
    → decode_lines unmarshal_edge (map (λ e. reread enc (marshal_edge e)) es) ≡ map read_edge es
unfolding decode_lines
decode_edges enc [] k p = refl
decode_edges enc (e ∷ es) k (a, p) =
    decode_step unmarshal_edge _ _ _ _ (read_back_edge enc e k a) (decode_edges enc es k p)

ids-read_node : (ns : List Node) → ids (map read_node ns) ≡ ids ns
ids-read_node [] = refl
ids-read_node (n ∷ ns) = ap (λ (r : List Text). n.id ∷ r) (ids-read_node ns)

keys-read_edge : (es : List Edge) → keys (map read_edge es) ≡ keys es
keys-read_edge [] = refl
keys-read_edge (e ∷ es) = ap (λ (r : List EdgeKey). new_edge_key e ∷ r) (keys-read_edge es)

length-read_edge : (es : List Edge) → length (map read_edge es) ≡ length es
length-read_edge [] = refl
length-read_edge (e ∷ es) = ap suc (length-read_edge es)

pub lines-read_node : (ns : List Node) → map marshal_node (map read_node ns) ≡ map marshal_node ns
lines-read_node [] = refl
lines-read_node (n ∷ ns) = rw (marshal_node-read_node n, lines-read_node ns) refl

pub lines-read_edge : (es : List Edge) → map marshal_edge (map read_edge es) ≡ map marshal_edge es
lines-read_edge [] = refl
lines-read_edge (e ∷ es) = rw (marshal_edge-read_edge e, lines-read_edge es) refl

-- The nodes and edges of a consistent graph, read and restored.
pub restored-SameGraph :
    (g other : OpenGraph)
    → Consistent g
    → other.source_kind ≡ g.source_kind
    → SameGraph
        (restore_nodes_and_edges (map read_node g.node_file) (map read_edge g.edge_file) other)
        g
restored-SameGraph g other c e =
    let same_ids = ids-read_node g.node_file ∙ sym c.indexed_ids in
    let same_keys = keys-read_edge g.edge_file ∙ sym c.indexed_keys in
    subst (λ (h : OpenGraph). SameGraph h g)
      (sym (
        restored (map read_node g.node_file) (map read_edge g.edge_file) other
          (subst UniqueIds (sym same_ids) c.unique_ids)
          (subst UniqueKeys (sym same_keys) c.unique_keys)))
      record {
        source_kind = e;
        node_ids = same_ids;
        edge_keys = same_keys;
        edge_count = omega (arith, c.counted, length-read_edge g.edge_file);
        node_lines = lines-read_node g.node_file;
        edge_lines = lines-read_edge g.edge_file;
      }

pub read_nodes :
    (enc : Encoding) (g : OpenGraph)
    → IsPlain enc g
    → (get_nodes_and_edges enc g).0 ≡ map read_node g.node_file
unfolding get_nodes_and_edges
read_nodes enc g p = decode_nodes enc g.node_file p.keys p.nodes

pub read_edges :
    (enc : Encoding) (g : OpenGraph)
    → IsPlain enc g
    → (get_nodes_and_edges enc g).1 ≡ map read_edge g.edge_file
unfolding get_nodes_and_edges
read_edges enc g p = decode_edges enc g.edge_file p.keys p.edges

-- Restoring what a consistent graph gave out, of nodes and edges whose JSON is read as it was written,
-- rebuilds that graph, from any graph with the same source kind: its source kind, its indexes and its
-- count, and files with the same JSON.
pub restore-get_nodes_and_edges :
    (enc : Encoding) (g other : OpenGraph)
    → Consistent g
    → IsPlain enc g
    → other.source_kind ≡ g.source_kind
    → SameGraph
        (restore_nodes_and_edges (get_nodes_and_edges enc g).0 (get_nodes_and_edges enc g).1 other)
        g
restore-get_nodes_and_edges enc g other c p e =
    subst
      (λ (r : List Edge).
        SameGraph (restore_nodes_and_edges (get_nodes_and_edges enc g).0 r other) g)
      (sym (read_edges enc g p))
      (subst
        (λ (r : List Node).
          SameGraph (restore_nodes_and_edges r (map read_edge g.edge_file) other) g)
        (sym (read_nodes enc g p)) (restored-SameGraph g other c e))
