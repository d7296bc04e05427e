-- ===== src/Deliverables/Graph/Cycle.antt =====
-- The search answers `cycle` exactly if the source can be reached, and its fuel is enough.
use auto_builder.Base.{
  ℕ, zero, suc, ◌+◌, ◌≤◌, String, true, false, List, [], ◌∷◌, ◌++◌, ◌≡◌, refl, ◌≢◌, ◌↔◌, ◌⊎◌, inl,
  inr, ◌==◌, not, select, elem, length, Dict, arith, eq_iff, Bool-cases, elem-append, length-append,
  length-select, subst,
}
use auto_builder.Model.Rows.{Deliverable}
use auto_builder.Deliverables.Graph.{
  adjacency, targets, unvisited, Verdict, cycle, acyclic, out_of_fuel, search, edges, enough,
  detect_cycle,
}

-- A chain of dependencies, of any length.
pub data Reaches (adj : Dict (List String)) : String → String → Type 0 where
  here : (x : String) → Reaches adj x x
  step : (x y z : String) → Reaches adj x y → elem z (targets adj y) ≡ true → Reaches adj x z

edges-visit :
    (adj : Dict (List String)) (node : String) (visited : List String)
    → edges adj (node ∷ visited) ≤ edges adj visited
unfolding edges
edges-visit [] node visited = omega arith
edges-visit ((k, deps) ∷ adj) node visited = ground (arith, edges-visit adj node visited)

edges-expand :
    (adj : Dict (List String)) (node : String) (visited : List String)
    → elem node visited ≡ false
    → edges adj (node ∷ visited) + length (targets adj node) ≤ edges adj visited
unfolding edges targets
edges-expand [] node visited new = omega arith
edges-expand ((k, deps) ∷ adj) node visited new = ground (
  arith,
  edges-expand adj node visited new,
  edges-visit adj node visited,
  eq_iff k node,
  eq_iff node k,
)

elem-unvisited :
    (y : String) (visited deps : List String)
    → elem y deps ≡ true
    → (elem y visited ≡ true) ⊎ (elem y (unvisited visited deps) ≡ true)
unfolding elem select
elem-unvisited y visited [] h = cc
elem-unvisited y visited (d ∷ deps) h = ground (arith, elem-unvisited y visited deps, eq_iff d y)

elem-of_unvisited :
    (y : String) (visited deps : List String)
    → elem y (unvisited visited deps) ≡ true
    → elem y deps ≡ true
unfolding elem select
elem-of_unvisited y visited [] h = h
elem-of_unvisited y visited (d ∷ deps) h = ground (arith, elem-of_unvisited y visited deps)

module _ (adj : Dict (List String)) (source target : String) where
  search-ends :
      (fuel : ℕ) (visited queue : List String)
      → suc (length queue + edges adj visited) ≤ fuel
      → search adj source fuel visited queue ≢ out_of_fuel
  unfolding search
  search-ends zero visited queue h = absurd (omega arith)
  search-ends (suc fuel) visited [] h = λ e. cc
  search-ends (suc fuel) visited (node ∷ queue) h = elim (Bool-cases (node == source)) [
    | inl found ↦ rw found (λ e. cc)
    | inr other ↦ elim (Bool-cases (elem node visited)) [
      | inl old ↦ rw (other, old) (search-ends fuel visited queue (omega arith))
      | inr new ↦
          rw (other, new)
            (search-ends fuel (node ∷ visited) _ (
              omega (
                arith,
                edges-expand adj node visited new,
                length-append queue (unvisited (node ∷ visited) (targets adj node)),
                length-select (λ dep. not (elem dep (node ∷ visited))) (targets adj node),
              )))
    ]
  ]

  AllReached : List String → Type 0
  AllReached queue = (y : String) → elem y queue ≡ true → Reaches adj target y

  search_sound :
      (fuel : ℕ) (visited queue : List String)
      → AllReached queue
      → search adj source fuel visited queue ≡ cycle
      → Reaches adj target source
  unfolding search elem AllReached
  search_sound zero visited queue r e = cc
  search_sound (suc fuel) visited [] r e = cc
  search_sound (suc fuel) visited (node ∷ queue) r e = elim (Bool-cases (node == source)) [
    | inl found ↦ r source (ground arith)
    | inr other ↦ elim (Bool-cases (elem node visited)) [
      | inl old ↦ search_sound fuel visited queue (λ y h. r y (ground arith)) (rw (other, old) at e)
      | inr new ↦
          search_sound fuel (node ∷ visited) _
            (λ y h. elim (Bool-cases (elem y queue)) [
              | inl queued ↦ r y (ground arith)
              | inr not_queued ↦ step target node y (r node (ground (arith, eq_iff node node))) (
                  elem-of_unvisited y (node ∷ visited) (targets adj node) (
                    ground
                      (arith, elem-append y queue (unvisited (node ∷ visited) (targets adj node)))))
            ])
            (rw (other, new) at e)
    ]
  ]

  -- What is visited is not the source, and its dependencies are visited or queued.
  record IsSearch (visited queue : List String) : Type 0 where
    start : (elem target visited ≡ true) ⊎ (elem target queue ≡ true)
    apart : elem source visited ≡ false
    closed :
        (x y : String)
        → elem x visited ≡ true
        → elem y (targets adj x) ≡ true
        → (elem y visited ≡ true) ⊎ (elem y queue ≡ true)

  visited_all :
      (visited : List String)
      → IsSearch visited []
      → (y : String) → Reaches adj target y
      → elem y visited ≡ true
  unfolding elem
  visited_all visited s y (here _) = elim s.start [ inl v ↦ v | inr q ↦ cc ]
  visited_all visited s y (step _ x _ r e) = elim (s.closed x y (visited_all visited s x r) e) [
    | inl v ↦ v
    | inr q ↦ cc
  ]

  skip-IsSearch :
      (node : String) (visited queue : List String)
      → elem node visited ≡ true
      → IsSearch visited (node ∷ queue)
      → IsSearch visited queue
  unfolding elem
  skip-IsSearch node visited queue old s = record {
    start = skip_one target s.start;
    apart = s.apart;
    closed = λ x y v e. skip_one y (s.closed x y v e);
  }
    where
      skip_one :
          (y : String)
          → (elem y visited ≡ true) ⊎ (elem y (node ∷ queue) ≡ true)
          → (elem y visited ≡ true) ⊎ (elem y queue ≡ true)
      skip_one y (inl v) = inl v
      skip_one y (inr q) = ground (arith, eq_iff node y)

  expand-IsSearch :
      (node : String) (visited queue : List String)
      → (node == source) ≡ false
      → IsSearch visited (node ∷ queue)
      → IsSearch (node ∷ visited) (queue ++ unvisited (node ∷ visited) (targets adj node))
  unfolding elem
  expand-IsSearch node visited queue other s = record {
    start = carry target s.start;
    apart = ground (arith, s.apart);
    closed = λ x y v e. elim (Bool-cases (node == x)) [
      | inl same ↦
          let e' : elem y (targets adj node) ≡ true = rw ((eq_iff node x).0 same) e in
          elim (elem-unvisited y (node ∷ visited) (targets adj node) e') [
            | inl seen ↦ inl seen
            | inr new ↦ inr (ground (arith, elem-append y queue added))
          ]
      | inr distinct ↦ carry y (s.closed x y (ground arith) e)
    ];
  }
    where
      added : List String
      added = unvisited (node ∷ visited) (targets adj node)

      carry :
          (y : String)
          → (elem y visited ≡ true) ⊎ (elem y (node ∷ queue) ≡ true)
          → (elem y (node ∷ visited) ≡ true) ⊎ (elem y (queue ++ added) ≡ true)
      carry y (inl v) = inl (ground (arith, v))
      carry y (inr q) = ground (arith, elem-append y queue added)

  search_complete :
      (fuel : ℕ) (visited queue : List String)
      → IsSearch visited queue
      → search adj source fuel visited queue ≡ acyclic
      → ¬ Reaches adj target source
  unfolding search
  search_complete zero visited queue s e = cc
  search_complete (suc fuel) visited [] s e = λ r. cc (visited_all visited s source r, s.apart)
  search_complete (suc fuel) visited (node ∷ queue) s e = elim (Bool-cases (node == source)) [
    | inl found ↦ let bad = rw found at e in cc
    | inr other ↦ elim (Bool-cases (elem node visited)) [
      | inl old ↦
          search_complete fuel visited queue (skip-IsSearch node visited queue old s)
            (rw (other, old) at e)
      | inr new ↦
          search_complete fuel (node ∷ visited) _ (expand-IsSearch node visited queue other s)
            (rw (other, new) at e)
    ]
  ]

Verdict-cases : (v : Verdict) → v ≢ out_of_fuel → (v ≡ cycle) ⊎ (v ≡ acyclic)
Verdict-cases cycle h = inl refl
Verdict-cases acyclic h = inr refl
Verdict-cases out_of_fuel h = absurd (h refl)

at_start :
    (adj : Dict (List String)) (source target : String) → AllReached adj source target (target ∷ [])
unfolding AllReached elem
at_start adj source target y h = elim (Bool-cases (target == y)) [
  | inl same ↦ subst (Reaches adj target) ((eq_iff target y).0 same) (here target)
  | inr other ↦ cc
]

first :
    (adj : Dict (List String)) (source target : String)
    → IsSearch adj source target [] (target ∷ [])
unfolding elem
first adj source target = record {
  start = inr (ground (arith, eq_iff target target));
  apart = refl;
  closed = λ x y v e. cc;
}

-- The search always ends, and reports a cycle exactly if the target reaches the source through the
-- dependencies that are stored; else it reports that there is none.
pub detect_cycle_iff :
    (rows : List Deliverable) (source_id target_id : String)
    → ((detect_cycle rows source_id target_id ≡ cycle)
        ↔ Reaches (adjacency rows []) target_id source_id)
      × ((detect_cycle rows source_id target_id ≡ acyclic)
          ↔ (¬ Reaches (adjacency rows []) target_id source_id))
unfolding detect_cycle
detect_cycle_iff rows source_id target_id =
    let adj = adjacency rows [] in
    let start_queue : List String = target_id ∷ [] in
    let sound =
      search_sound adj source_id target_id (enough adj) [] start_queue
        (at_start adj source_id target_id) in
    let complete =
      search_complete adj source_id target_id (enough adj) [] start_queue
        (first adj source_id target_id) in
    elim (Verdict-cases (search adj source_id (enough adj) [] start_queue)
      (search-ends adj source_id target_id (enough adj) [] start_queue (omega arith))) [
        | inl yes_cycle ↦
            ((sound, λ r. yes_cycle), (complete, λ none. absurd (none (sound yes_cycle))))
        | inr no_cycle ↦ ((sound, λ r. absurd (complete no_cycle r)), (complete, λ none. no_cycle))
      ]
