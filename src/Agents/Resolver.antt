-- ===== src/Agents/Resolver.antt =====
-- _topological_sort of agents/custom/dependency_resolver.py. The dictionaries `graph` (with `[]` for a
-- missing name) and `in_deg` are functions. A name enters the queue at most as often as it is listed,
-- so the loop gets one unit of fuel for each name.
pub mod Distinct
pub mod Relaxing
pub mod Order
pub mod Exact
pub mod Complete
use auto_builder.Base.{
  ℕ, zero, suc, ◌+◌, ◌-◌, String, Option, none, some, Bool, true, false, List, [], ◌∷◌, ◌++◌, not,
  ◌==◌, ◌&&◌, nat_eq, if◌then◌else◌, elem, select, length,
}
use auto_builder.Sessions.State.{sort_texts}

pub record Sorting : Type 0 where
  pub in_deg : String → ℕ
  pub queue : List String

-- in_deg[name] -= 1, and the name joins the queue at 0.
abbrev pub lower : String → Sorting → Sorting
lower name s =
    let n = s.in_deg name - 1 in
    record {
      in_deg = λ m. if m == name then n else s.in_deg m;
      queue = if nat_eq n 0 then sort_texts (s.queue ++ name ∷ []) else s.queue;
    }

module _ (graph : String → List String) where
  abbrev pub is_lowered : String → List String → String → Sorting → Bool
  is_lowered node result name s =
      elem node (graph name) && (not (elem name result) && not (elem name s.queue))

  -- `for name in names`, after the node has joined the result.
  unfoldable pub relax : String → List String → List String → Sorting → Sorting
  unfolding elem sort_texts
  relax node result [] s = s
  relax node result (name ∷ names) s =
      relax node result names (if is_lowered node result name s then lower name s else s)

module _ (names : List String) (graph : String → List String) where
  unfoldable pub degree : String → ℕ
  unfolding select elem
  degree n = length (select (λ d. elem d names) (graph n))

  -- The loop, and the result when the queue is empty.
  unfoldable pub drain : ℕ → List String → Sorting → List String
  unfolding relax
  drain zero result s = result
  drain (suc fuel) result s = elim s.queue [
    | [] ↦ result
    | node ∷ queue ↦
        drain fuel (result ++ node ∷ [])
          (relax graph node (result ++ node ∷ []) names (record s { queue = queue }))
  ]

  abbrev pub initial : Sorting
  initial = record { in_deg = degree; queue = sort_texts (select (λ n. nat_eq (degree n) 0) names) }

  unfoldable pub topological_sort : Option (List String)
  unfolding drain degree sort_texts
  topological_sort =
      let result = drain (length names) [] initial in
      if nat_eq (length result) (length names) then some result else none
