-- ===== src/Graph/Marshal/Plain.antt =====
-- Nodes and edges (Go/internal/graph/node.go and edge.go) whose JSON is the same after it was written to a
-- file and read.
use share_hound.Graph.Element.{
  Value, text, constant, natural, negative, flag, decoded, Properties, Node, EdgeEndpoint, Edge,
}
use share_hound.Graph.Json.{
  number, string, object, Members, no_members, Encoding, reread, reread_items, reread_members,
}
use share_hound.Graph.Marshal.{
  value_json, properties_json, with_properties, with_text, kinds_json, with_kinds, marshal_node,
  endpoint_json, marshal_edge,
}
use share_hound.Prelude.{◌≡◌, refl, ap, List, [], ◌∷◌, All}
use share_hound.Prelude.Int.{pos, negsuc}
use share_hound.Prelude.Text.{Text, codes}

module _ (enc : Encoding) where
  -- A string that is read as it was written, such as one of valid UTF-8.
  abbrev pub PlainText : Text → Type 0
  PlainText t = enc.read_text t ≡ t

  -- A value with such strings, and numbers that are floats.
  abbrev pub PlainValue : Value → Type 0
  PlainValue (text t) = PlainText t
  PlainValue (constant c) = PlainText (codes c)
  PlainValue (natural n) = enc.read_number (pos n) ≡ pos n
  PlainValue (negative n) = enc.read_number (negsuc n) ≡ negsuc n
  PlainValue (flag b) = Unit
  PlainValue (decoded j) = reread enc j ≡ j

  abbrev pub PlainProperties : Properties → Type 0
  PlainProperties = All (λ p. PlainText p.0 × PlainValue p.1)

  -- The keys of the structs are read as they are written.
  pub record PlainKeys : Type 0 where
    pub id : PlainText (codes "id")
    pub kinds : PlainText (codes "kinds")
    pub properties : PlainText (codes "properties")
    pub start : PlainText (codes "start")
    pub end_key : PlainText (codes "end")
    pub kind : PlainText (codes "kind")
    pub value : PlainText (codes "value")
    pub match_by : PlainText (codes "match_by")

  pub record PlainNode (n : Node) : Type 0 where
    pub id : PlainText n.id
    pub kinds : All PlainText n.kinds
    pub properties : PlainProperties n.properties

  pub record PlainEndpoint (p : EdgeEndpoint) : Type 0 where
    pub value : PlainText p.value
    pub match_by : PlainText p.match_by
    pub kind : PlainText p.kind

  pub record PlainEdge (e : Edge) : Type 0 where
    pub start : PlainEndpoint e.start
    pub end_point : PlainEndpoint e.end
    pub kind : PlainText e.kind
    pub properties : PlainProperties e.properties

  reread-value_json : (v : Value) → PlainValue v → reread enc (value_json v) ≡ value_json v
  unfolding value_json reread
  reread-value_json (text t) p = ap string p
  reread-value_json (constant c) p = ap string p
  reread-value_json (natural n) p = ap number p
  reread-value_json (negative n) p = ap number p
  reread-value_json (flag b) p = refl
  reread-value_json (decoded j) p = p

  reread-properties_json :
      (m : Properties)
      → PlainProperties m
      → reread_members enc (properties_json m) ≡ properties_json m
  unfolding properties_json reread
  reread-properties_json [] p = refl
  reread-properties_json ((k, v) ∷ m) ((a, b), p) =
      rw (a, reread-value_json v b, reread-properties_json m p) refl

  reread-kinds_json :
      (kinds : List Text)
      → All PlainText kinds
      → reread_items enc (kinds_json kinds) ≡ kinds_json kinds
  unfolding kinds_json reread
  reread-kinds_json [] p = refl
  reread-kinds_json (k ∷ kinds) (a, p) = rw (a, reread-kinds_json kinds p) refl

  module _ (keys : PlainKeys) where
    reread-with_properties :
        (m : Properties)
        → PlainProperties m
        → reread_members enc (with_properties m) ≡ with_properties m
    unfolding reread
    reread-with_properties [] p = refl
    reread-with_properties (q ∷ m) p = rw (keys.properties, reread-properties_json (q ∷ m) p) refl

    reread-with_kinds :
        (kinds : List Text) (ms : Members)
        → All PlainText kinds
        → reread_members enc ms ≡ ms
        → reread_members enc (with_kinds kinds ms) ≡ with_kinds kinds ms
    unfolding reread
    reread-with_kinds [] ms p e = e
    reread-with_kinds (k ∷ kinds) ms p e = rw (keys.kinds, reread-kinds_json (k ∷ kinds) p, e) refl

    reread-with_text :
        (name t : Text) (ms : Members)
        → PlainText name
        → PlainText t
        → reread_members enc ms ≡ ms
        → reread_members enc (with_text name t ms) ≡ with_text name t ms
    unfolding reread
    reread-with_text name [] ms a p e = e
    reread-with_text name (c ∷ t) ms a p e = rw (a, p, e) refl

    -- The JSON of a plain node, and of a plain edge, is read as it was written.
    pub reread-marshal_node :
        (n : Node) → PlainNode n → reread enc (marshal_node n) ≡ marshal_node n
    unfolding marshal_node reread
    reread-marshal_node n p =
        rw
          (
            keys.id,
            p.id,
            reread-with_kinds n.kinds (with_properties n.properties) p.kinds
                (reread-with_properties n.properties p.properties),
          )
          refl

    reread-endpoint_json :
        (q : EdgeEndpoint) → PlainEndpoint q → reread enc (endpoint_json q) ≡ endpoint_json q
    unfolding reread
    reread-endpoint_json q p = ap object (
        reread-with_text (codes "value") q.value _ keys.value p.value (
          reread-with_text (codes "match_by") q.match_by _ keys.match_by p.match_by
            (reread-with_text (codes "kind") q.kind no_members keys.kind p.kind refl)))

    pub reread-marshal_edge :
        (e : Edge) → PlainEdge e → reread enc (marshal_edge e) ≡ marshal_edge e
    unfolding marshal_edge reread
    reread-marshal_edge e p =
        rw
          (
            keys.start,
            reread-endpoint_json e.start p.start,
            keys.end_key,
            reread-endpoint_json e.end p.end_point,
            keys.kind,
            p.kind,
            reread-with_properties e.properties p.properties,
          )
          refl
