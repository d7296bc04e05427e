-- ===== src/Deliverables/Graph/Edits.antt =====
-- How a write to one row changes its project's graph.
use auto_builder.Base.{
  String, Option, none, some, Bool, true, false, List, [], ◌∷◌, ◌≡◌, refl, inl, inr, ◌==◌, ◌&&◌,
  if◌then◌else◌, elem, select, Dict, lookup, insert, lookup-insert, All, All-map, arith, eq_iff,
  Bool-cases, sym, subst,
}
use auto_builder.Model.Rows.{Deliverable}
use auto_builder.Deliverables.Ready.{ids}
use auto_builder.Deliverables.Update.{find_row, write_row}
use auto_builder.Deliverables.Graph.{adjacency, targets}
use auto_builder.Deliverables.Graph.Manage.{same_project, with_deps}

-- The dependencies that the graph holds for a node: those of the last row with its id.
unfoldable last_deps : String → List Deliverable → Option (List String)
last_deps x [] = none
last_deps x (d ∷ ds) = elim (last_deps x ds) [
  | some deps ↦ some deps
  | none ↦ if d.id == x then some d.depends_on else none
]

abbrev or_else : Option (List String) → Option (List String) → Option (List String)
or_else none o = o
or_else (some deps) o = some deps

abbrev in_place : List String → Option (List String) → Option (List String)
in_place new none = none
in_place new (some deps) = some new

abbrev or_empty : Option (List String) → List String
or_empty none = []
or_empty (some deps) = deps

lookup-adjacency :
    (x : String) (ds : List Deliverable) (adj : Dict (List String))
    → lookup x (adjacency ds adj) ≡ or_else (last_deps x ds) (lookup x adj)
unfolding adjacency last_deps
lookup-adjacency x [] adj = refl
lookup-adjacency x (d ∷ ds) adj = ground (
  arith,
  lookup-adjacency x ds (insert d.id d.depends_on adj),
  lookup-insert d.id x d.depends_on adj,
)

targets-adjacency :
    (x : String) (ds : List Deliverable) → targets (adjacency ds []) x ≡ or_empty (last_deps x ds)
unfolding targets lookup
targets-adjacency x ds = ground (arith, lookup-adjacency x ds [])

last_deps-write_row :
    (x : String) (r : Deliverable) (ds : List Deliverable)
    → last_deps x (write_row r ds)
      ≡ (if r.id == x then in_place r.depends_on (last_deps x ds) else last_deps x ds)
unfolding last_deps write_row
last_deps-write_row x r [] = ground arith
last_deps-write_row x r (d ∷ ds) =
    ground (arith, last_deps-write_row x r ds, eq_iff d.id r.id, eq_iff d.id x, eq_iff r.id x)

-- The ids are a primary key.
abbrev pub IsKeyedRows : List Deliverable → Type 0
IsKeyedRows [] = Unit
IsKeyedRows (d ∷ ds) = (elem d.id (ids ds) ≡ false) × IsKeyedRows ds

absent_others :
    (i : String) (ds : List Deliverable)
    → elem i (ids ds) ≡ false
    → All (λ (d : Deliverable). (d.id == i) ≡ false) ds
unfolding elem
absent_others i [] h = tt
absent_others i (d ∷ ds) h = (ground arith, absent_others i ds (ground arith))

module _ (p : Deliverable → Bool) where
  last_deps_absent :
      (i : String) (ds : List Deliverable)
      → All (λ (d : Deliverable). (d.id == i) ≡ false) ds
      → last_deps i (select p ds) ≡ none
  unfolding last_deps select
  last_deps_absent i [] h = refl
  last_deps_absent i (d ∷ ds) h = ground (arith, last_deps_absent i ds h.1, h.0)

  last_deps-select :
      (i : String) (ds : List Deliverable) (s : Deliverable)
      → IsKeyedRows ds
      → find_row i ds ≡ some s
      → last_deps i (select p ds) ≡ (if p s then some s.depends_on else none)
  unfolding last_deps select find_row
  last_deps-select i [] s k h = cc
  last_deps-select i (d ∷ ds) s k h = elim (Bool-cases (d.id == i)) [
    | inl same ↦
        let one : some d ≡ some s = rw same at h in
        let there : d ≡ s = cc in
        let gone = last_deps_absent i ds (
          absent_others i ds (subst (λ j. elem j (ids ds) ≡ false) ((eq_iff d.id i).0 same) k.0)) in
        elim (Bool-cases (p d)) [
          | inl holds ↦ rw (← there, holds) (ground (arith, gone, same))
          | inr fails ↦ rw (← there, fails) (ground (arith, gone))
        ]
    | inr other ↦ ground (arith, last_deps-select i ds s k.1)
  ]

  select-write_row :
      (r : Deliverable) (ds : List Deliverable)
      → All (λ (d : Deliverable). (d.id == r.id) ≡ true → p d ≡ p r) ds
      → select p (write_row r ds) ≡ write_row r (select p ds)
  unfolding select write_row
  select-write_row r [] h = refl
  select-write_row r (d ∷ ds) h = ground (arith, select-write_row r ds h.1, h.0)

  same_side :
      (ds : List Deliverable) (r s : Deliverable)
      → IsKeyedRows ds
      → find_row r.id ds ≡ some s
      → p s ≡ p r
      → All (λ (d : Deliverable). (d.id == r.id) ≡ true → p d ≡ p r) ds
  unfolding find_row
  same_side [] r s k h e = tt
  same_side (d ∷ ds) r s k h e = elim (Bool-cases (d.id == r.id)) [
    | inl same ↦
        let one : some d ≡ some s = rw same at h in
        let there : d ≡ s = cc in
        (
          λ _. subst (λ (x : Deliverable). p x ≡ p r) (sym there) e,
          All-map ds (λ x apart bad. cc)
              (absent_others r.id ds
                (subst (λ j. elem j (ids ds) ≡ false) ((eq_iff d.id r.id).0 same) k.0)),
        )
    | inr other ↦ (λ bad. cc, same_side ds r s k.1 (rw other at h) e)
  ]

-- The graph of a project.
abbrev pub graph : Option String → List Deliverable → Dict (List String)
graph pid rows = adjacency (select (same_project pid) rows) []

same_project-with_deps :
    (pid : Option String) (deps : List String) (s : Deliverable)
    → same_project pid s ≡ same_project pid (with_deps deps s)
same_project-with_deps none deps s = refl
same_project-with_deps (some p) deps s = refl

module _ (pid : Option String) (rows : List Deliverable) (s : Deliverable) (k : IsKeyedRows rows)
    (found : find_row s.id rows ≡ some s) where
  pub targets-graph :
      targets (graph pid rows) s.id ≡ (if same_project pid s then s.depends_on else [])
  targets-graph =
      rw
        (
          targets-adjacency s.id (select (same_project pid) rows),
          last_deps-select (same_project pid) s.id rows s k found,
        )
        (ground arith)

  pub edited :
      (deps : List String) (x : String)
      → targets (graph pid (write_row (with_deps deps s) rows)) x
        ≡ (if s.id == x && same_project pid s then deps else targets (graph pid rows) x)
  edited deps x =
      let q = select (same_project pid) rows in
      let moved = select-write_row (same_project pid) (with_deps deps s) rows (
        same_side (same_project pid) rows (with_deps deps s) s k found
          (same_project-with_deps pid deps s)) in
      rw
        (
          moved,
          targets-adjacency x (write_row (with_deps deps s) q),
          targets-adjacency x q,
          last_deps-write_row x (with_deps deps s) q,
        )
        (elim (Bool-cases (s.id == x)) [
          | inr apart ↦ ground arith
          | inl same ↦
              rw (← (eq_iff s.id x).0 same, last_deps-select (same_project pid) s.id rows s k found)
                (ground (arith, eq_iff s.id s.id))
        ])
