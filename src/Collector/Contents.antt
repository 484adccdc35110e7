-- ===== src/Collector/Contents.antt =====
-- Go/internal/collector/contents.go: the walk over the directories of a share. What the host answers and
-- the reads of the timeout flag are parameters; a listing is a list, in the order in which the code
-- iterates over its map. Sizes and depths are not negative. The lock of the counters is there, as all
-- callers pass one. Log lines are left out.
use share_hound.Collector.Counts.{TraversalCounts, no_counts, add, WorkerResults, report}
use share_hound.Collector.Rights.{ShareRights, collect_ntfs_rights}
use share_hound.Graph.Context.{
  Context, PathEntry, set_element, set_element_rights, clear_element, push_path, pop_path,
  get_string_path_from_root,
}
use share_hound.Graph.Element.{
  Node, Value, text, natural, negative, new_node, set_property, get_string_property,
}
use share_hound.Graph.Emission.{add_path_to_graph}
use share_hound.Kinds.{node_kind_directory, node_kind_file}
use share_hound.Prelude.{
  ℕ, zero, suc, ◌+◌, Bool, true, false, not, ◌&&◌, ◌||◌, List, [], ◌∷◌, ◌++◌, Option, none, some,
  ltb, leb, if◌then◌else◌,
}
use share_hound.Prelude.FilePath.{filepath_join, filepath_ext}
use share_hound.Prelude.Int.{ℤ, pos, negsuc, ◌+ℤ◌, ◌-ℤ◌}
use share_hound.Prelude.Outcome.{Outcome, ok, err, panic, ◌>>=◌}
use share_hound.Prelude.Text.{Text, codes, eqb, to_lower}
use share_hound.Rules.Evaluator.{
  Evaluator, RuleObject, file_object, directory_object, set_depth, can_explore, can_process,
}
use share_hound.Rules.Value.{Runtime}
use share_hound.Smb.Descriptor.{SecurityDescriptor}
pub mod Traverse
mod Tests

-- `smb.FileInfo`; a time is its number of seconds, or none if it is the zero time.
pub record FileInfo : Type 0 where
  pub is_dir : Bool
  pub size : ℕ
  pub created_time : Option ℤ
  pub modified_time : Option ℤ

abbrev pub Listing : Type 0
Listing = List (Text × FileInfo)

-- The session with the host: what its methods answer, `false` and `none` for an error, and the order in
-- which the map of flags is iterated over for a path.
pub record Session : Type 0 where
  pub remote_name : Text
  pub set_share : Text → Bool
  pub list_contents : Text → Option Listing
  pub file_descriptor : Text → Option SecurityDescriptor
  pub orders : Text → ℕ → List (Text × ℕ)

-- The recursion of the walk has no bound of its own where there is no limit on the depth.
pub data WalkError : Type 0 where
  out_of_fuel : WalkError

-- What a traversal changes: the context of the share, the evaluator, the shared counters, and how often
-- the flag of the timeout has been read.
pub record Walk (F : Type 0) : Type 0 where
  pub context : Context
  pub evaluator : Evaluator F
  pub results : WorkerResults
  pub reads : ℕ

-- The state of the loop over one listing.
pub record Level (F : Type 0) : Type 0 where
  pub walk : Walk F
  pub counts : TraversalCounts
  pub dirs : List PathEntry

-- `if err := …; err != nil` cannot happen.
abbrev pub no_error : {A : Type 0} → Outcome ⊥ A → Outcome WalkError A
no_error (ok a) = ok a
no_error (err e) = elim e [ ]
no_error panic = panic

abbrev unix : ℤ → Value
unix (pos n) = natural n
unix (negsuc n) = negative n

-- `if !t.IsZero() { node.SetProperty(key, t.Unix()) }`
unfoldable pub set_time : Text → Option ℤ → Node → Node
set_time key none n = n
set_time key (some t) n = set_property key (unix t) n

abbrev set_times : FileInfo → Node → Node
set_times info n =
    set_time (codes "modifiedAt") info.modified_time
      (set_time (codes "createdAt") info.created_time n)

-- `fmt.Sprintf("\\\\%s\\%s\\%s", hostName, shareName, fullPath)`
abbrev pub unc_path : Text → Text → Text → Text
unc_path host share path = codes "\\\\" ++ (host ++ (codes "\\" ++ (share ++ (codes "\\" ++ path))))

-- The node of a directory, and that of a file.
unfoldable pub directory_node : Text → Text → Text → ℕ → FileInfo → Node
unfolding set_time
directory_node name full_path unc depth info = set_times info (
    set_property (codes "depth") (natural depth) (
      set_property (codes "UNCPath") (text unc) (
        set_property (codes "Path") (text full_path) (
          set_property (codes "name") (text name)
            (new_node (codes "DIR:" ++ unc) (node_kind_directory ∷ []))))))

unfoldable pub file_node : Text → Text → Text → Text → ℕ → FileInfo → Node
unfolding set_time
file_node name full_path unc ext depth info = set_times info (
    set_property (codes "depth") (natural depth) (
      set_property (codes "extension") (text ext) (
        set_property (codes "fileSize") (natural info.size) (
          set_property (codes "UNCPath") (text unc) (
            set_property (codes "Path") (text full_path) (
              set_property (codes "name") (text name)
                (new_node (codes "FILE:" ++ unc) (node_kind_file ∷ []))))))))

abbrev pub is_empty {ℓ} : {A : Type ℓ} → List A → Bool
is_empty [] = true
is_empty (x ∷ xs) = false

-- The loop over the path from its end: the rights of the nearest directory that has some.
unfoldable pub nearest_rights : List PathEntry → Option ShareRights
nearest_rights [] = none
nearest_rights (e ∷ es) = elim (nearest_rights es) [
  | some rights ↦ some rights
  | none ↦ if is_empty e.rights then none else some e.rights
]

-- The rights of a file that has none of its own: those of a directory, or those of the root.
unfoldable pub inherited_rights : Context → ShareRights
unfolding nearest_rights
inherited_rights c = elim (nearest_rights c.path) [
  | some rights ↦ rights
  | none ↦ c.share_root_ntfs_rights
]

-- `if len(elementRights) == 0 { … }`
unfoldable pub inherit : ShareRights → Context → Context
unfolding inherited_rights
inherit own c =
    let rights = inherited_rights c in
    if is_empty own && not (is_empty rights) then set_element_rights rights c else c

module _ {F : Type 0} where
  abbrev pub set_context : Context → Walk F → Walk F
  set_context c w = record w { context = c }

  abbrev pub set_evaluator : Evaluator F → Walk F → Walk F
  set_evaluator e w = record w { evaluator = e }

  abbrev pub set_results : WorkerResults → Walk F → Walk F
  set_results r w = record w { results = r }

  -- `DirectoriesPending++` and `DirectoriesPending--`, and the same for files
  abbrev pub directory_begins : Walk F → Walk F
  directory_begins w =
      set_results
        (record (w.results) { directories_pending = w.results.directories_pending +ℤ pos 1 }) w

  abbrev pub directory_ends : Walk F → Walk F
  directory_ends w =
      set_results
        (record (w.results) { directories_pending = w.results.directories_pending -ℤ pos 1 }) w

  abbrev pub file_begins : Walk F → Walk F
  file_begins w =
      set_results (record (w.results) { files_pending = w.results.files_pending +ℤ pos 1 }) w

  abbrev pub file_ends : Walk F → Walk F
  file_ends w =
      set_results (record (w.results) { files_pending = w.results.files_pending -ℤ pos 1 }) w

  -- `ogc.AddPathToGraph()`
  unfoldable pub emit : Walk F → Outcome WalkError (Walk F)
  emit w = do c ← no_error (add_path_to_graph w.context); ok (set_context c w)
