-- ===== src/Deliverables/Graph/Manage.antt =====
-- The tool manage_dependencies. The ids are compared and stored as the caller spells them, and rows
-- are found by their canonical texts. A failed parse of either id is `invalid_input`.
use auto_builder.Base.{
  String, Option, none, some, Bool, true, false, List, [], ◌∷◌, ◌++◌, ◌==◌, if◌then◌else◌, elem,
  select,
}
use auto_builder.Model.Rows.{Deliverable}
use auto_builder.Deliverables.Update.{find_row, write_row}
use auto_builder.Deliverables.Graph.{Verdict, cycle, acyclic, out_of_fuel, detect_cycle}

pub data DependencyAction : Type 0 where
  add remove query : DependencyAction

pub data DependencyReply : Type 0 where
  invalid_input source_not_found target_not_found dependency_not_found cycle_detected :
      DependencyReply
  ok : (depends_on : List String) → DependencyReply

-- `Deliverable.project_id == source.project_id`; for None SQLAlchemy writes IS NULL.
abbrev pub same_project : Option String → Deliverable → Bool
same_project none d = elim d.project_id [ none ↦ true | some _ ↦ false ]
same_project (some p) d = elim d.project_id [ none ↦ false | some owner ↦ owner == p ]

abbrev pub with_deps : List String → Deliverable → Deliverable
with_deps deps d = record d { depends_on = deps }

-- `list.remove`, at the first occurrence.
unfoldable pub remove_first : String → List String → List String
remove_first t [] = []
remove_first t (x ∷ xs) = let rest = remove_first t xs in if x == t then xs else x ∷ rest

-- The search never runs out of fuel; the last clause is not reached.
abbrev pub add_checked :
    Verdict → String → Deliverable → List Deliverable → List Deliverable × DependencyReply
add_checked cycle target_id s rows = (rows, cycle_detected)
add_checked acyclic target_id s rows =
    let deps = s.depends_on ++ target_id ∷ [] in (write_row (with_deps deps s) rows, ok deps)
add_checked out_of_fuel target_id s rows = (rows, cycle_detected)

-- `target` is the row that the parsed `target_id` finds.
unfoldable pub add_dependency :
    String
    → String
    → Option Deliverable
    → Deliverable
    → List Deliverable
    → List Deliverable × DependencyReply
unfolding elem select detect_cycle
add_dependency source_id target_id none s rows = (rows, target_not_found)
add_dependency source_id target_id (some target) s rows =
    if elem target_id s.depends_on
    then (rows, ok s.depends_on)
    else add_checked (detect_cycle (select (same_project s.project_id) rows) source_id target_id)
        target_id s rows

unfoldable pub remove_dependency :
    String → Deliverable → List Deliverable → List Deliverable × DependencyReply
unfolding elem remove_first
remove_dependency target_id s rows =
    let deps = remove_first target_id s.depends_on in
    if elem target_id s.depends_on
    then (write_row (with_deps deps s) rows, ok deps)
    else (rows, dependency_not_found)

module _ (parse_uuid : String → Option String) where
  abbrev pub with_target :
      DependencyAction
      → String
      → String
      → Option String
      → Deliverable
      → List Deliverable
      → List Deliverable × DependencyReply
  with_target query source_id target_id tid s rows = (rows, ok s.depends_on)
  with_target _ source_id target_id none s rows = (rows, invalid_input)
  with_target add source_id target_id (some tid) s rows =
      add_dependency source_id target_id (find_row tid rows) s rows
  with_target remove source_id target_id (some tid) s rows = remove_dependency target_id s rows

  -- The source row, once both ids are known to be well-formed.
  abbrev pub with_source :
      DependencyAction
      → String
      → Option String
      → Option Deliverable
      → List Deliverable
      → List Deliverable × DependencyReply
  with_source action source_id target_id none rows = (rows, source_not_found)
  with_source query source_id none (some s) rows = (rows, ok s.depends_on)
  with_source _ source_id none (some s) rows = (rows, invalid_input)
  with_source action source_id (some t) (some s) rows =
      with_target action source_id t (parse_uuid t) s rows

  -- ADD and REMOVE need a target, and a target that is given must parse.
  abbrev pub is_target_fit : DependencyAction → Option String → Bool
  is_target_fit query none = true
  is_target_fit _ none = false
  is_target_fit _ (some t) = elim (parse_uuid t) [ none ↦ false | some _ ↦ true ]

  unfoldable pub manage_dependencies :
      DependencyAction
      → String
      → Option String
      → List Deliverable
      → List Deliverable × DependencyReply
  unfolding add_dependency remove_dependency
  manage_dependencies action source_id target_id rows =
      if is_target_fit action target_id
      then elim (parse_uuid source_id) [
        | none ↦ (rows, invalid_input)
        | some sid ↦ with_source action source_id target_id (find_row sid rows) rows
      ]
      else (rows, invalid_input)
