-- ===== src/Workflows/Registry.antt =====
-- workflows/registry.py: the scan of the two directories, lookups, and the match of a request. The file
-- system is given: what `sorted(directory.iterdir())` lists (`none` for no directory), the path of a
-- child's WORKFLOW.yaml where the child is a directory that has one, the files' times, and whether a
-- path is relative to a directory. `parse` reads and validates a manifest, and is `none` where the
-- code skips it.
pub mod Agreement
pub mod Requests
use package.text.Mathlib.Text.{is_le}
use Prim.Native.String.compare
use Prim.Native.String.{compare}
use auto_builder.Base.{
  ℕ, String, Option, none, some, Bool, true, false, List, [], ◌∷◌, ◌++◌, map, any, is_nil,
  if◌then◌else◌, ◌==◌, Dict, insert, lookup, sort_by,
}
use auto_builder.Model.Values.{Value, text, list, Fields, get}
use auto_builder.Workflows.Manifest.{WorkflowManifest}
use auto_builder.Workflows.Dependencies.{texts}

-- The pipeline type is left out.
pub record WorkflowEntry : Type 0 where
  pub name : String
  pub description : String
  pub directory : String
  pub triggers : List Fields

pub record Folders : Type 0 where
  pub children : String → Option (List String)
  pub manifest_path : String → Option String
  pub mtime : String → ℕ
  pub is_inside : String → String → Bool
  pub parse : String → Option WorkflowManifest

pub record Registry : Type 0 where
  pub workflows_dir : String
  pub user_workflows_dir : Option String
  pub index : Dict WorkflowEntry
  pub manifests : Dict WorkflowManifest
  pub file_mtimes : Dict ℕ

abbrev pub entry_of : String → WorkflowManifest → WorkflowEntry
entry_of child m = record {
  name = m.name;
  description = m.description;
  directory = child;
  triggers = m.triggers;
}

module _ (folders : Folders) where
  abbrev pub is_same_scope : String → Option WorkflowEntry → Bool
  is_same_scope directory none = false
  is_same_scope directory (some e) = folders.is_inside e.directory directory

  abbrev pub enter : String → String → String → Option WorkflowManifest → Registry → Registry
  enter directory child path none r = r
  enter directory child path (some m) r =
      if is_same_scope directory (lookup m.name r.index) then r else record r {
        index = insert m.name (entry_of child m) r.index;
        manifests = insert m.name m r.manifests;
        file_mtimes = insert path (folders.mtime path) r.file_mtimes;
      }

  abbrev pub read_child : String → String → Option String → Registry → Registry
  read_child directory child none r = r
  read_child directory child (some path) r = enter directory child path (folders.parse path) r

  unfoldable pub scan_children : String → List String → Registry → Registry
  unfolding lookup insert
  scan_children directory [] r = r
  scan_children directory (child ∷ rest) r =
      scan_children directory rest (read_child directory child (folders.manifest_path child) r)

  abbrev pub scan_listed : String → Option (List String) → Registry → Registry
  scan_listed directory none r = r
  scan_listed directory (some listed) r = scan_children directory listed r

  abbrev pub scan_directory : Option String → Registry → Registry
  scan_directory none r = r
  scan_directory (some directory) r = scan_listed directory (folders.children directory) r

  unfoldable pub scan : Registry → Registry
  unfolding scan_children
  scan r = scan_directory r.user_workflows_dir (
      scan_directory (some r.workflows_dir)
        (record r { index = []; manifests = []; file_mtimes = [] }))

-- `none` is the NotFoundError, also below.
abbrev pub get_entry : String → Registry → Option WorkflowEntry
get_entry name r = lookup name r.index

abbrev pub get_manifest : String → Registry → Option WorkflowManifest
get_manifest name r = lookup name r.manifests

abbrev pub entries : Registry → List WorkflowEntry
entries r = map (λ (p : String × WorkflowEntry). p.1) r.index

-- How an entry matches a request.
pub data Match : Type 0 where
  unmatched by_name by_keyword : Match

pub record Matches : Type 0 where
  pub explicit_matches : List WorkflowEntry
  pub keyword_matches : List WorkflowEntry

-- `lower` is `str.lower`, and `within` the test of one text within another.
module _ (lower : String → String) (within : String → String → Bool) (request : String) where
  abbrev pub is_explicit : Value → Bool
  is_explicit (text name) = request == name
  is_explicit _ = false

  abbrev pub has_keyword : Value → Bool
  has_keyword (list items) = any (λ kw. within (lower kw) (lower request)) (texts items)
  has_keyword _ = false

  -- The first trigger that matches decides.
  unfoldable pub match_triggers : List Fields → Match
  unfolding any texts get
  match_triggers [] = unmatched
  match_triggers (t ∷ ts) =
      let rest = match_triggers ts in
      if is_explicit (get t "explicit")
      then by_name
      else if has_keyword (get t "keywords")
      then by_keyword
      else rest

  abbrev pub add_match : WorkflowEntry → Match → Matches → Matches
  add_match e unmatched m = m
  add_match e by_name m = record m { explicit_matches = m.explicit_matches ++ e ∷ [] }
  add_match e by_keyword m = record m { keyword_matches = m.keyword_matches ++ e ∷ [] }

  unfoldable pub collect : List WorkflowEntry → Matches → Matches
  unfolding match_triggers
  collect [] m = m
  collect (e ∷ es) m = collect es (add_match e (match_triggers e.triggers) m)

  abbrev pub preferred : Matches → List WorkflowEntry
  preferred m = if is_nil m.explicit_matches then m.keyword_matches else m.explicit_matches

  unfoldable pub match_request : Registry → List WorkflowEntry
  unfolding collect
  match_request r =
      preferred (collect (entries r) (record { explicit_matches = []; keyword_matches = [] }))

unfoldable pub list_available : Registry → List WorkflowEntry
unfolding sort_by
list_available r = sort_by (λ (a b : WorkflowEntry). is_le (compare a.name b.name)) (entries r)
