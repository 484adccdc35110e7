-- ===== src/Collector/Contents/Tests.antt =====
-- A share with a directory in it, walked as Go/internal/collector/contents.go walks it.
use share_hound.Collector.Contents.Traverse.Evolution.{IsClean}
use share_hound.Collector.Contents.Traverse.Returns.{
  collect_contents_in_share-counts, directories_pending_falls,
  collect_contents_in_share-within_depth, collect_contents_in_share-after_timeout,
}
use share_hound.Collector.Contents.Traverse.Complete.{collect_contents_in_share_complete}
use share_hound.Collector.Contents.Traverse.Found.{Found, file, below, path_text}
use share_hound.Collector.Contents.Traverse.Listed.{path_entry}
use share_hound.Collector.Contents.Traverse.Visits.{Allows, IsPlaced}
use share_hound.Collector.Contents.Traverse.Sound.{collect_contents_in_share-IsSound}
use share_hound.Collector.Contents.Traverse.{collect_contents_in_share, share_name}
use share_hound.Collector.Contents.{
  emit, directory_node, file_node, inherit, FileInfo, Listing, Session, Walk,
}
use share_hound.Collector.Rights.{collect_ntfs_rights}
use share_hound.Collector.Counts.{add, report, TraversalCounts, no_results}
use share_hound.Graph.Context.{
  PathEntry, get_string_path_from_root, pop_path, split_last, Context, new_open_graph_context,
  set_host, set_share, path_names,
}
use share_hound.Graph.Element.{
  get_string_property, get_value, set_value, Node, text, new_node, set_property,
}
use share_hound.Graph.Emission.{
  add_path_to_graph, first_kind, emit_below, emit_path, emit_host_share, emit_edge, emit_directory,
  emit_element, add_rights_to_graph, add_node_rights, add_effective_rights_to_graph, describe,
}
use share_hound.Kinds.Descriptions.{description}
use share_hound.Graph.Emission.Accounts.{IsSound}
use share_hound.Graph.Emission.Writes.{Present}
use share_hound.Graph.OpenGraph.Consistent.{new_open_graph-Consistent}
use share_hound.Graph.OpenGraph.{add_node, add_edge, has_key, key_eqb, new_open_graph}
use share_hound.Kinds.{node_kind_network_share_host, node_kind_network_share_smb}
use share_hound.Prelude.{
  ℕ, ◌+◌, ◌≤◌, ◌≡◌, refl, sym, subst, Bool, true, false, List, [], ◌∷◌, none, some, arith,
  if◌then◌else◌, leb, ltb,
}
use share_hound.Prelude.Int.{ℤ, pos, negsuc, ◌+ℤ◌, ◌-ℤ◌}
use share_hound.Prelude.FilePath.{filepath_join, filepath_ext}
use share_hound.Prelude.Outcome.{ok, ◌>>=◌}
use share_hound.Prelude.Text.{elem, join, to_lower, to_upper, Text, codes, eqb}
use share_hound.Rules.Evaluator.{new_evaluator, can_explore, can_process, evaluate}
use share_hound.Rules.Value.{Runtime}

abbrev whole : Runtime ℕ
whole = record {
  of_int = λ n. n;
  zero_float = 0;
  less = ltb;
  low_bits = λ n. n;
  scan = λ s. 0;
  compile = λ p. some (eqb p);
}

abbrev plain : Bool → FileInfo
plain is_dir = record {
  is_dir = is_dir;
  size = 7;
  created_time = none;
  modified_time = some (negsuc 0);
}

abbrev below_docs : Listing
below_docs = (codes "..", plain true) ∷ (codes "a.TXT", plain false) ∷ []

abbrev at_root : Listing
at_root = (codes "docs", plain true) ∷ (codes "b.txt", plain false) ∷ []

-- A server that has `docs` in its root and `a.TXT` in it.
abbrev server : Session
server = record {
  remote_name = codes "srv";
  set_share = λ s. true;
  list_contents = λ p.
      if eqb p [] then some at_root else if eqb p (codes "docs") then some below_docs else none;
  file_descriptor = λ p. none;
  orders = λ p i. [];
}

-- A server on which every directory has a directory in it.
abbrev endless : Session
endless = record {
  remote_name = codes "srv";
  set_share = λ s. true;
  list_contents = λ p. some ((codes "d", plain true) ∷ []);
  file_descriptor = λ p. none;
  orders = λ p i. [];
}

abbrev share : Node
share =
    set_property (codes "displayName") (text (codes "pub"))
      (new_node (codes "\\\\srv\\pub\\") (node_kind_network_share_smb ∷ []))

abbrev begun : Context
begun = set_share share (
    set_host (new_node (codes "NSHOST:srv") (node_kind_network_share_host ∷ []))
      (new_open_graph_context (new_open_graph (codes "ShareHound"))))

abbrev first : Walk ℕ
first = record { context = begun; evaluator = new_evaluator []; results = no_results; reads = 0 }

begun-IsClean : IsClean begun
unfolding set_property
begun-IsClean = record {
  sound = record {
    consistent = new_open_graph-Consistent (codes "ShareHound");
    anchored = tt;
    ready = (tt, λ s e f. cc);
  };
  share_kind = λ n e f. cc;
  element_kind = λ n e f. cc;
}

abbrev never : ℕ → Bool
never i = false

abbrev soon : ℕ → Bool
soon i = leb 2 i

abbrev ids : Walk ℕ × TraversalCounts → List Text
ids r = r.0.context.graph.node_ids

abbrev pending : Walk ℕ × TraversalCounts → ℤ
pending r = r.0.results.directories_pending

walked_ids :
    (collect_contents_in_share whole server never 0 3 first >>= λ r. ok (ids r))
    ≡ ok (
        codes "NSHOST:srv"
        ∷ codes "\\\\srv\\pub\\"
        ∷ codes "DIR:\\\\srv\\pub\\docs"
        ∷ codes "FILE:\\\\srv\\pub\\b.txt"
        ∷ codes "FILE:\\\\srv\\pub\\docs/a.TXT"
        ∷ [])
unfolding collect_contents_in_share get_string_property get_value set_property set_value
    get_string_path_from_root join can_explore can_process emit add_path_to_graph first_kind
    emit_below emit_path emit_host_share emit_edge emit_directory emit_element add_rights_to_graph
    add_node_rights add_effective_rights_to_graph describe description add_node add_edge elem
    has_key key_eqb eqb filepath_join filepath_ext to_lower ◌+ℤ◌ ◌-ℤ◌ directory_node file_node
    collect_ntfs_rights inherit add pop_path split_last to_upper report
walked_ids = refl

-- One directory, which was processed: the counter of what is pending falls below zero.
walked_pending :
    (collect_contents_in_share whole server never 0 3 first >>= λ r. ok (pending r)) ≡ ok (negsuc 0)
unfolding collect_contents_in_share get_string_property get_value set_property set_value
    get_string_path_from_root join can_explore can_process emit add_path_to_graph first_kind
    emit_below emit_path emit_host_share emit_edge emit_directory emit_element add_rights_to_graph
    add_node_rights add_effective_rights_to_graph describe description add_node add_edge elem
    has_key key_eqb eqb filepath_join filepath_ext to_lower ◌+ℤ◌ ◌-ℤ◌ directory_node file_node
    collect_ntfs_rights inherit add pop_path split_last to_upper report
walked_pending = refl

endless_stops :
    (collect_contents_in_share whole endless never 2 3 first >>= λ r. ok r.1.total_directories)
    ≡ ok 2
unfolding collect_contents_in_share get_string_property get_value set_property set_value
    get_string_path_from_root join can_explore can_process emit add_path_to_graph first_kind
    emit_below emit_path emit_host_share emit_edge emit_directory emit_element add_rights_to_graph
    add_node_rights add_effective_rights_to_graph describe description add_node add_edge elem
    has_key key_eqb eqb filepath_join filepath_ext to_lower ◌+ℤ◌ ◌-ℤ◌ directory_node file_node
    collect_ntfs_rights inherit add pop_path split_last to_upper report
endless_stops = refl

soon_set : (i : ℕ) → 2 ≤ i → soon i ≡ true
soon_set i h = ground arith

collect_contents_in_share-after_timeout_example :
    (w' : Walk ℕ) × (counts : TraversalCounts) × (collect_contents_in_share whole endless soon 0 3
        first
      ≡ ok (w', counts))
collect_contents_in_share-after_timeout_example =
    collect_contents_in_share-after_timeout whole endless soon 0 3 2 first begun-IsClean soon_set
      (omega arith)

abbrev walked :
    (w' : Walk ℕ) × (counts : TraversalCounts) × (collect_contents_in_share whole server never 9 10
        first
      ≡ ok (w', counts))
walked =
    collect_contents_in_share-within_depth whole server never 9 10 first begun-IsClean (omega arith)
      (omega arith)

collect_contents_in_share-counts_example :
    (walked.1.processed_files ≡ walked.1.total_files)
    × (walked.1.processed_directories ≤ walked.1.total_directories)
    × (walked.0.results.files_pending ≡ pos 0)
collect_contents_in_share-counts_example =
    collect_contents_in_share-counts whole server never 9 10 first walked.0 walked.1 walked.2

directories_pending_falls_example :
    walked.0.results.directories_pending +ℤ pos walked.1.processed_directories ≡ pos 0
directories_pending_falls_example =
    directories_pending_falls whole server never 9 10 first walked.0 walked.1 (λ i. refl) walked.2

collect_contents_in_share-IsSound_example :
    IsSound walked.0.context
    × (walked.0.context.path ≡ [])
    × ((id : Text) → Present id begun → Present id walked.0.context)
    × (walked.0.context.total_edges_created + 0 ≡ 0 + walked.0.context.graph.edge_count)
collect_contents_in_share-IsSound_example =
    collect_contents_in_share-IsSound whole server never 9 10 first walked.0 walked.1 begun-IsClean
      walked.2

abbrev docs_entry : PathEntry
docs_entry = path_entry server 0 (codes "pub") [] (codes "docs") (plain true)

docs_text : path_text (docs_entry ∷ []) ≡ codes "docs"
unfolding join path_names eqb get_string_property get_value directory_node set_property set_value
docs_text = refl

text_below_docs :
    Found server (codes "pub") 9 1 (docs_entry ∷ []) (codes "FILE:\\\\srv\\pub\\docs/a.TXT")
unfolding join path_names eqb get_string_property get_value directory_node set_property set_value
    filepath_join collect_ntfs_rights inherit
text_below_docs =
    file {path = docs_entry ∷ []} (codes "a.TXT") (plain false) ((codes "..", plain true) ∷ []) []
      refl refl refl refl refl

text_below_root : Found server (codes "pub") 9 0 [] (codes "FILE:\\\\srv\\pub\\docs/a.TXT")
unfolding join path_names eqb get_string_property get_value directory_node set_property set_value
    filepath_join collect_ntfs_rights inherit
text_below_root =
    below {path = []} (codes "docs") (plain true) [] ((codes "b.txt", plain false) ∷ []) refl refl
      refl refl text_below_docs

begun-IsPlaced :
    IsPlaced (new_node (codes "NSHOST:srv") (node_kind_network_share_host ∷ [])) share begun
begun-IsPlaced = record { clean = begun-IsClean; host = refl; share = refl }

no_rules : Allows whole []
unfolding evaluate
no_rules ctx scope = refl

share_named : share_name (some share) ≡ codes "pub"
unfolding share_name get_string_property get_value set_property set_value eqb
share_named = refl

collect_contents_in_share_complete_example :
    Present (codes "FILE:\\\\srv\\pub\\docs/a.TXT") walked.0.context
collect_contents_in_share_complete_example =
    collect_contents_in_share_complete whole []
      (new_node (codes "NSHOST:srv") (node_kind_network_share_host ∷ [])) share no_rules server
      never (λ i. refl) 9 (λ e. cc (share_named)) refl 10 (codes "FILE:\\\\srv\\pub\\docs/a.TXT")
      first walked.0 walked.1 refl begun-IsPlaced
      (subst (λ (n : Text). Found server n 9 0 [] (codes "FILE:\\\\srv\\pub\\docs/a.TXT"))
        (sym share_named) text_below_root)
      walked.2
