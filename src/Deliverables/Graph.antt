-- ===== src/Deliverables/Graph.antt =====
-- The dependency graph: _detect_cycle and manage_dependencies of tools/management.py. The graph's
-- nodes are texts: `depends_on` holds what the caller passed as `target_id`.
pub mod Cycle
pub mod Manage
pub mod Acyclic
pub mod Edits
pub mod Preserved
use auto_builder.Base.{
  ℕ, zero, suc, ◌+◌, String, Option, none, some, Bool, true, false, List, [], ◌∷◌, ◌++◌, ◌==◌, ◌&&◌,
  not, if◌then◌else◌, elem, length, Dict, lookup, insert, select,
}
use auto_builder.Model.Rows.{Deliverable}
use auto_builder.Deliverables.Update.{find_row, write_row, is_of_project}

-- `adj[str(d.id)] = list(d.depends_on or [])`
unfoldable pub adjacency : List Deliverable → Dict (List String) → Dict (List String)
unfolding insert
adjacency [] adj = adj
adjacency (d ∷ ds) adj = adjacency ds (insert d.id d.depends_on adj)

-- `adj.get(node, [])`
unfoldable pub targets : Dict (List String) → String → List String
unfolding lookup
targets adj node = elim (lookup node adj) [ none ↦ [] | some deps ↦ deps ]

-- `for dep in …: if dep not in visited: queue.append(dep)`
abbrev pub unvisited : List String → List String → List String
unvisited visited = select (λ dep. not (elem dep visited))

pub data Verdict : Type 0 where
  cycle acyclic out_of_fuel : Verdict

-- The `while queue` loop, on fuel. `cycle` stands for the list of three ids.
unfoldable pub search : Dict (List String) → String → ℕ → List String → List String → Verdict
search adj source zero visited queue = out_of_fuel
search adj source (suc fuel) visited [] = acyclic
search adj source (suc fuel) visited (node ∷ queue) =
    let again = search adj source fuel visited queue in
    let further =
      search adj source fuel (node ∷ visited)
        (queue ++ unvisited (node ∷ visited) (targets adj node)) in
    if node == source then cycle else if elem node visited then again else further

-- A node is expanded once, and then puts at most its dependencies on the queue.
unfoldable pub edges : Dict (List String) → List String → ℕ
unfolding elem
edges [] visited = 0
edges ((k, deps) ∷ adj) visited =
    let rest = edges adj visited in if elem k visited then rest else length deps + rest

abbrev pub enough : Dict (List String) → ℕ
enough adj = suc (suc (edges adj []))

unfoldable pub detect_cycle : List Deliverable → String → String → Verdict
unfolding search adjacency targets edges select
detect_cycle rows source_id target_id =
    let adj = adjacency rows [] in search adj source_id (enough adj) [] (target_id ∷ [])
