-- ===== src/Deliverables/Graph/Preserved.antt =====
-- What manage_dependencies writes leaves every project's graph acyclic.
use auto_builder.Base.{
  String, Option, none, some, true, List, [], ◌∷◌, ◌++◌, ◌≡◌, refl, ◌⊎◌, inl, inr, ◌==◌, ◌&&◌, elem,
  select, arith, eq_iff, Bool-cases, sym, subst, elem-append, Option-cases,
}
use auto_builder.Model.Rows.{Deliverable}
use auto_builder.Deliverables.Update.{find_row, write_row}
use auto_builder.Deliverables.Update.Finality.{find_row-id}
use auto_builder.Deliverables.Graph.{Verdict, cycle, acyclic, out_of_fuel, targets, detect_cycle}
use auto_builder.Deliverables.Graph.Cycle.{Reaches, detect_cycle_iff}
use auto_builder.Deliverables.Graph.Acyclic.{IsAcyclic, IsAcyclic-extend, IsAcyclic-within}
use auto_builder.Deliverables.Graph.Manage.{
  DependencyAction, add, remove, query, same_project, with_deps, remove_first, add_checked,
  add_dependency, remove_dependency, with_target, with_source, is_target_fit, manage_dependencies,
}
use auto_builder.Deliverables.Graph.Edits.{IsKeyedRows, graph, targets-graph, edited}

same_project-same :
    (pid : Option String) (s : Deliverable) → same_project pid s ≡ true → pid ≡ s.project_id
same_project-same none s h = elim (Option-cases s.project_id) [
  | inl e ↦ sym e
  | inr (owner, e) ↦ cc (rw e at h)
]
same_project-same (some p) s h = elim (Option-cases s.project_id) [
  | inl e ↦ cc (rw e at h)
  | inr (owner, e) ↦ rw e (ground (arith, eq_iff owner p, rw e at h))
]

elem-remove_first :
    (t y : String) (deps : List String) → elem y (remove_first t deps) ≡ true → elem y deps ≡ true
unfolding elem remove_first
elem-remove_first t y [] h = h
elem-remove_first t y (d ∷ deps) h = ground (arith, elem-remove_first t y deps)

module _ (pid : Option String) (rows : List Deliverable) (s : Deliverable) (k : IsKeyedRows rows)
    (found : find_row s.id rows ≡ some s) (h : IsAcyclic (graph pid rows)) where
  remove_dependency-IsAcyclic : (t : String) → IsAcyclic (graph pid (remove_dependency t s rows).0)
  unfolding remove_dependency
  remove_dependency-IsAcyclic t = elim (Bool-cases (elem t s.depends_on)) [
    | inr absent ↦ rw absent h
    | inl there ↦
        let deps = remove_first t s.depends_on in
        rw there (
          IsAcyclic-within (graph pid rows) (graph pid (write_row (with_deps deps s) rows))
            (λ x y e. elim (Bool-cases (s.id == x)) [
              | inr apart ↦ ground (arith, edited pid rows s k found deps x)
              | inl same ↦
                  let x_is : s.id ≡ x = (eq_iff s.id x).0 same in
                  subst (λ i. elem y (targets (graph pid rows) i) ≡ true) x_is
                    (ground (
                      arith,
                      edited pid rows s k found deps x,
                      targets-graph pid rows s k found,
                      elem-remove_first t y s.depends_on,
                      x_is,
                      same,
                    ))
            ])
            h)
  ]

  grown :
      (t x y : String)
      → let deps = s.depends_on ++ t ∷ [] in
        elem y (targets (graph pid (write_row (with_deps deps s) rows)) x) ≡ true
        → (elem y (targets (graph pid rows) x) ≡ true)
          ⊎ ((same_project pid s ≡ true) × (x ≡ s.id) × (y ≡ t))
  unfolding elem
  grown t x y e =
      let deps = s.depends_on ++ t ∷ [] in
      let after = edited pid rows s k found deps x in
      elim (Bool-cases (s.id == x && same_project pid s)) [
        | inr apart ↦ inl (ground (arith, after))
        | inl here ↦
            let x_is : s.id ≡ x = (eq_iff s.id x).0 (ground arith) in
            elim (Bool-cases (elem y s.depends_on)) [
              | inl old ↦ inl (
                  subst (λ i. elem y (targets (graph pid rows) i) ≡ true) x_is
                    (ground (arith, targets-graph pid rows s k found)))
              | inr new ↦ inr (
                ground arith,
                sym x_is,
                ground (arith, after, elem-append y s.depends_on (t ∷ []), eq_iff t y),
              )
            ]
      ]

  add_checked-IsAcyclic :
      (t : String) (v : Verdict)
      → (v ≡ acyclic → ¬ Reaches (graph s.project_id rows) t s.id)
      → IsAcyclic (graph pid (add_checked v t s rows).0)
  add_checked-IsAcyclic t cycle apart = h
  add_checked-IsAcyclic t out_of_fuel apart = h
  add_checked-IsAcyclic t acyclic apart =
      let deps = s.depends_on ++ t ∷ [] in
      let new = graph pid (write_row (with_deps deps s) rows) in
      elim (Bool-cases (same_project pid s)) [
        | inl own ↦
            IsAcyclic-extend s.id t (graph pid rows) new
              (λ x y e. elim (grown t x y e) [
                | inl old ↦ inl old
                | inr edge ↦ inr (edge.1, edge.2)
              ])
              (subst (λ o. ¬ Reaches (graph o rows) t s.id) (sym (same_project-same pid s own))
                (apart refl))
              h
        | inr other ↦
            IsAcyclic-within (graph pid rows) new
              (λ x y e. elim (grown t x y e) [ inl old ↦ old | inr edge ↦ cc (other, edge.0) ]) h
      ]

  add_dependency-IsAcyclic :
      (t : String) (target : Option Deliverable)
      → IsAcyclic (graph pid (add_dependency s.id t target s rows).0)
  unfolding add_dependency
  add_dependency-IsAcyclic t none = h
  add_dependency-IsAcyclic t (some target) = elim (Bool-cases (elem t s.depends_on)) [
    | inl there ↦ rw there h
    | inr absent ↦
        let project = select (same_project s.project_id) rows in
        rw absent (
          add_checked-IsAcyclic t (detect_cycle project s.id t)
            (λ e. (detect_cycle_iff project s.id t).1.0 e))
  ]

module _ (parse_uuid : String → Option String) (pid : Option String) (rows : List Deliverable)
    (k : IsKeyedRows rows) (h : IsAcyclic (graph pid rows)) where
  with_target-IsAcyclic :
      (action : DependencyAction) (s : Deliverable) (t : String) (tid : Option String)
      → find_row s.id rows ≡ some s
      → IsAcyclic (graph pid (with_target parse_uuid action s.id t tid s rows).0)
  with_target-IsAcyclic query s t tid found = h
  with_target-IsAcyclic add s t none found = h
  with_target-IsAcyclic remove s t none found = h
  with_target-IsAcyclic add s t (some tid) found =
      add_dependency-IsAcyclic pid rows s k found h t (find_row tid rows)
  with_target-IsAcyclic remove s t (some tid) found =
      remove_dependency-IsAcyclic pid rows s k found h t

  with_source-IsAcyclic :
      (action : DependencyAction) (i : String) (t : Option String) (o : Option Deliverable)
      → find_row i rows ≡ o
      → IsAcyclic (graph pid (with_source parse_uuid action i t o rows).0)
  with_source-IsAcyclic action i t none e = h
  with_source-IsAcyclic query i none (some s) e = h
  with_source-IsAcyclic add i none (some s) e = h
  with_source-IsAcyclic remove i none (some s) e = h
  with_source-IsAcyclic action i (some t) (some s) e =
      let own : s.id ≡ i = find_row-id i rows s e in
      subst (λ j. IsAcyclic (graph pid (with_source parse_uuid action j (some t) (some s) rows).0))
        own
        (with_target-IsAcyclic action s t (parse_uuid t)
          (subst (λ j. find_row j rows ≡ some s) (sym own) e))

-- Whatever is asked of manage_dependencies, a project's graph that has no cycle has none afterwards.
-- The ids are a primary key, and the caller spells the source's id in the canonical way.
pub manage_dependencies-IsAcyclic :
    (parse_uuid : String → Option String) (action : DependencyAction) (source_id : String)
    (target_id pid : Option String) (rows : List Deliverable)
    → IsKeyedRows rows
    → parse_uuid source_id ≡ some source_id
    → IsAcyclic (graph pid rows)
    → IsAcyclic (graph pid (manage_dependencies parse_uuid action source_id target_id rows).0)
unfolding manage_dependencies
manage_dependencies-IsAcyclic parse_uuid action source_id target_id pid rows k canonical h =
    elim (Bool-cases (is_target_fit parse_uuid action target_id)) [
      | inr unfit ↦ rw unfit h
      | inl fit ↦
          rw (fit, canonical)
            (with_source-IsAcyclic parse_uuid pid rows k h action source_id target_id
              (find_row source_id rows) refl)
    ]
