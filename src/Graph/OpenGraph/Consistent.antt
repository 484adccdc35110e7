-- ===== src/Graph/OpenGraph/Consistent.antt =====
-- The indexes in memory against the files, under the operations of Go/internal/graph/opengraph.go.
use mathlib.Core.List.{map-append, append-nil}
use share_hound.Graph.Element.{Node, Edge}
use share_hound.Graph.OpenGraph.Keys.{
  UniqueIds, UniqueKeys, UniqueIds-snoc, UniqueKeys-snoc, has_key_self, key_eqb_iff, has_key-append,
}
use share_hound.Graph.OpenGraph.{
  EdgeKey, new_edge_key, key_eqb, has_key, OpenGraph, new_open_graph, add_node, add_edge,
}
use share_hound.Prelude.{
  ◌≡◌, refl, sym, Bool, true, false, not, ◌||◌, List, [], ◌∷◌, ◌++◌, map, length, length-append,
  arith, if◌then◌else◌, Bool-cases, inl, inr,
}
use share_hound.Prelude.Text.{Text, elem}

abbrev pub ids : List Node → List Text
ids = map (λ n. n.id)

abbrev pub keys : List Edge → List EdgeKey
keys = map new_edge_key

pub record Consistent (g : OpenGraph) : Type 0 where
  pub indexed_ids : g.node_ids ≡ ids g.node_file
  pub indexed_keys : g.edge_keys ≡ keys g.edge_file
  pub counted : g.edge_count ≡ length g.edge_file
  pub unique_ids : UniqueIds g.node_ids
  pub unique_keys : UniqueKeys g.edge_keys

-- A new graph is consistent.
pub new_open_graph-Consistent : (source_kind : Text) → Consistent (new_open_graph source_kind)
new_open_graph-Consistent source_kind = record {
  indexed_ids = refl;
  indexed_keys = refl;
  counted = refl;
  unique_ids = tt;
  unique_keys = tt;
}

-- `AddNode` keeps the graph consistent.
pub add_node-Consistent : (n : Node) (g : OpenGraph) → Consistent g → Consistent (add_node n g)
unfolding add_node
add_node-Consistent n g c = elim (Bool-cases (elem n.id g.node_ids)) [
  | inl old ↦ rw old c
  | inr new ↦ rw new (record {
    indexed_ids = rw (map-append, c.indexed_ids);
    indexed_keys = c.indexed_keys;
    counted = c.counted;
    unique_ids = UniqueIds-snoc g.node_ids n.id c.unique_ids new;
    unique_keys = c.unique_keys;
  })
]

-- `AddEdge` keeps the graph consistent.
pub add_edge-Consistent : (e : Edge) (g : OpenGraph) → Consistent g → Consistent (add_edge e g).0
unfolding add_edge
add_edge-Consistent e g c = elim (Bool-cases (has_key (new_edge_key e) g.edge_keys)) [
  | inl old ↦ rw old c
  | inr new ↦ rw new (record {
    indexed_ids = c.indexed_ids;
    indexed_keys = rw (map-append, c.indexed_keys);
    counted = omega (arith, c.counted, length-append g.edge_file (e ∷ []));
    unique_ids = c.unique_ids;
    unique_keys = UniqueKeys-snoc g.edge_keys (new_edge_key e) c.unique_keys new;
  })
]

known_again :
    (key : EdgeKey) (ks : List EdgeKey)
    → has_key key ks ≡ true
    → (k : EdgeKey) → has_key k ks ≡ (key_eqb key k || has_key k ks)
known_again key ks old k = elim (Bool-cases (key_eqb key k)) [
  | inl same ↦ rw (same, sym ((key_eqb_iff key k).0 same)) old
  | inr other ↦ rw other refl
]

known_now :
    (key : EdgeKey) (ks : List EdgeKey) (k : EdgeKey)
    → has_key k (ks ++ (key ∷ [])) ≡ (key_eqb key k || has_key k ks)
unfolding has_key
known_now key ks k = ground (arith, has_key-append k ks (key ∷ []))

-- What `AddEdge` does to a graph, against the set of the keys that it has.
pub record AddsEdge (e : Edge) (g g' : OpenGraph) (written : Bool) : Type 0 where
  pub once : written ≡ not (has_key (new_edge_key e) g.edge_keys)
  pub unchanged : written ≡ false → g' ≡ g
  pub known :
      (k : EdgeKey) → has_key k g'.edge_keys ≡ (key_eqb (new_edge_key e) k || has_key k g.edge_keys)
  pub file : g'.edge_file ≡ g.edge_file ++ (if written then e ∷ [] else [])
  pub nodes : (g'.node_ids ≡ g.node_ids) × (g'.node_file ≡ g.node_file)
  pub kind : g'.source_kind ≡ g.source_kind
  pub consistent : Consistent g'
  pub repeated : add_edge e g' ≡ (g', false)

-- `AddEdge` on a consistent graph reports an edge as written exactly when its key was not known, and if
-- not the graph stays as it was. Afterwards the known keys are those of before and the key of the edge,
-- the file of the edges is that of before, with the edge behind it if it was written, and the nodes and
-- the source kind are those of before; the graph is consistent, so the count is the length of the file.
-- Adding the edge again writes nothing and changes nothing.
pub add_edge_lem :
    (e : Edge) (g : OpenGraph) → Consistent g → AddsEdge e g (add_edge e g).0 (add_edge e g).1
unfolding add_edge
add_edge_lem e g c =
    let key = new_edge_key e in
    let kept = add_edge-Consistent e g c in
    elim (Bool-cases (has_key key g.edge_keys)) [
      | inl old ↦ rw old (record {
        once = rw old refl;
        unchanged = λ h. refl;
        known = known_again key g.edge_keys old;
        file = sym (append-nil g.edge_file);
        nodes = (refl, refl);
        kind = refl;
        consistent = c;
        repeated = rw old refl;
      })
      | inr new ↦ rw new (record {
        once = rw new refl;
        unchanged = λ h. cc;
        known = known_now key g.edge_keys;
        file = refl;
        nodes = (refl, refl);
        kind = refl;
        consistent = rw new at kept;
        repeated = let there = has_key_self key g.edge_keys in rw there refl;
      })
    ]
