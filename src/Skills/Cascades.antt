-- ===== src/Skills/Cascades.antt =====
-- resolve_cascades of skills/library.py. Each round takes one pending name, and a name is expanded at
-- most once, so that the loop gets one unit of fuel for each pending name and for each cascade of an
-- indexed skill.
pub mod Closure
pub mod Reached
use auto_builder.Base.{
  ℕ, zero, suc, ◌+◌, String, Option, none, some, Bool, true, false, List, [], ◌∷◌, ◌++◌, map,
  select, not, if◌then◌else◌, elem, Dict, lookup, length,
}
use auto_builder.Skills.{SkillEntry}

-- The visited names are listed, the last first.
pub record Resolving : Type 0 where
  pub result : List SkillEntry
  pub visited : List String
  pub pending : List String

-- The cascades that are not visited.
unfoldable pub unvisited : List String → List String → List String
unfolding select elem
unvisited visited = select (λ c. not (elem c visited))

unfoldable pub first_pending : List String → List SkillEntry → List String
unfolding unvisited
first_pending visited [] = []
first_pending visited (e ∷ es) = unvisited visited e.cascades ++ first_pending visited es

unfoldable pub all_cascades : Dict SkillEntry → ℕ
all_cascades [] = 0
all_cascades ((_, e) ∷ rest) = length e.cascades + all_cascades rest

module _ (index : Dict SkillEntry) where
  -- A name that is not visited, with its entry in the index.
  abbrev pub expand : String → List String → Option SkillEntry → Resolving → Resolving
  expand name rest none s = record s { visited = name ∷ s.visited; pending = rest }
  expand name rest (some e) s =
      let visited = name ∷ s.visited in
      record {
        result = s.result ++ e ∷ [];
        visited = visited;
        pending = rest ++ unvisited visited e.cascades;
      }

  abbrev pub pop : String → List String → Resolving → Resolving
  pop name rest s =
      if elem name s.visited
      then record s { pending = rest }
      else expand name rest (lookup name index) s

  -- The loop; `none` means that the fuel ran out.
  unfoldable pub resolve : ℕ → Resolving → Option (List SkillEntry)
  unfolding elem lookup unvisited
  resolve zero s = none
  resolve (suc fuel) s = elim s.pending [
    | [] ↦ some s.result
    | name ∷ rest ↦ resolve fuel (pop name rest s)
  ]

  abbrev pub initial : List SkillEntry → Resolving
  initial entries =
      let names = map (λ (e : SkillEntry). e.name) entries in
      record { result = entries; visited = names; pending = first_pending names entries }

  unfoldable pub resolve_cascades : List SkillEntry → Option (List SkillEntry)
  unfolding resolve first_pending all_cascades
  resolve_cascades entries =
      let s = initial entries in resolve (suc (length s.pending + all_cascades index)) s
