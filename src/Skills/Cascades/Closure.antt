-- ===== src/Skills/Cascades/Closure.antt =====
-- What each round of resolve_cascades keeps.
use auto_builder.Base.{
  ℕ, zero, suc, ◌+◌, ◌≤◌, ◌<◌, String, none, some, true, false, List, [], ◌∷◌, ◌++◌, ◌≡◌, refl, sym,
  ap, subst, ◌∙◌, ◌⊎◌, inl, inr, not, if◌then◌else◌, elem, Dict, lookup, length, length-append,
  length-select, IsIn, IsIn-select, Any-append, elem_iff, eq_iff, arith, Bool-cases, Option-cases,
}
use auto_builder.Skills.{SkillEntry}
use auto_builder.Skills.Cascades.{Resolving, unvisited, resolve, all_cascades}

-- The cascades of the entries, and of the indexed skills that these name, and so on.
pub data Wanted (index : Dict SkillEntry) (entries : List SkillEntry) : String → Type 0 where
  direct :
      (e : SkillEntry) (c : String) → IsIn e entries → IsIn c e.cascades → Wanted index entries c
  further :
      (b : String) (e : SkillEntry) (c : String)
      → Wanted index entries b
      → lookup b index ≡ some e
      → IsIn c e.cascades
      → Wanted index entries c

-- The cascades of the indexed skills that are not visited.
pub remaining : List String → Dict SkillEntry → ℕ
unfolding elem
remaining visited [] = 0
remaining visited ((k, e) ∷ d) =
    let rest = remaining visited d in if elem k visited then rest else length e.cascades + rest

pub remaining-le :
    (visited : List String) (d : Dict SkillEntry) → remaining visited d ≤ all_cascades d
unfolding remaining all_cascades
remaining-le visited [] = omega arith
remaining-le visited ((k, e) ∷ d) = ground (arith, remaining-le visited d)

remaining-cons :
    (name : String) (visited : List String) (d : Dict SkillEntry)
    → remaining (name ∷ visited) d ≤ remaining visited d
unfolding remaining elem
remaining-cons name visited [] = omega arith
remaining-cons name visited ((k, e) ∷ d) = ground (arith, remaining-cons name visited d)

remaining-lookup :
    (name : String) (visited : List String) (d : Dict SkillEntry) (e : SkillEntry)
    → lookup name d ≡ some e
    → elem name visited ≡ false
    → length e.cascades + remaining (name ∷ visited) d ≤ remaining visited d
unfolding remaining elem lookup
remaining-lookup name visited [] e found new = cc
remaining-lookup name visited ((k, f) ∷ d) e found new = ground (
  arith,
  remaining-cons name visited d,
  remaining-lookup name visited d e,
  eq_iff k name,
  eq_iff name k,
)

length-unvisited : (visited cs : List String) → length (unvisited visited cs) ≤ length cs
unfolding unvisited
length-unvisited visited cs = length-select (λ c. not (elem c visited)) cs

module _ (index : Dict SkillEntry) (entries : List SkillEntry) where
  abbrev pub state : List SkillEntry → List String → List String → Resolving
  state result visited pending = record { result = result; visited = visited; pending = pending }

  abbrev pub Found : SkillEntry → Type 0
  Found e = IsIn e entries ⊎ ((c : String) × Wanted index entries c × (lookup c index ≡ some e))

  -- The cascades of what is in the result are visited or pending, a visited name's entry is in the
  -- result, and the result and the pending names are wanted.
  pub record IsSound (result : List SkillEntry) (visited pending : List String) : Type 0 where
    pub kept : (e : SkillEntry) → IsIn e entries → IsIn e result
    pub closed :
        (e : SkillEntry) (c : String)
        → IsIn e result
        → IsIn c e.cascades
        → IsIn c visited ⊎ IsIn c pending
    pub entered :
        (e : SkillEntry) (c : String) → IsIn c visited → lookup c index ≡ some e → IsIn e result
    pub wanted : (c : String) → IsIn c pending → Wanted index entries c
    pub found : (e : SkillEntry) → IsIn e result → Found e

  module _ (result : List SkillEntry) (visited : List String) (name : String)
      (rest : List String) where
    skip-IsSound :
        elem name visited ≡ true
        → IsSound result visited (name ∷ rest)
        → IsSound result visited rest
    skip-IsSound e s = record {
      kept = s.kept;
      closed = λ x c a b. elim (s.closed x c a b) [
        | inl v ↦ inl v
        | inr (inl here) ↦ inl (subst (λ n. IsIn n visited) here ((elem_iff name visited).0 e))
        | inr (inr later) ↦ inr later
      ];
      entered = s.entered;
      wanted = λ c h. s.wanted c (inr h);
      found = s.found;
    }

    missing-IsSound :
        lookup name index ≡ none
        → IsSound result visited (name ∷ rest)
        → IsSound result (name ∷ visited) rest
    missing-IsSound e s = record {
      kept = s.kept;
      closed = λ x c a b. elim (s.closed x c a b) [
        | inl v ↦ inl (inr v)
        | inr (inl here) ↦ inl (inl here)
        | inr (inr later) ↦ inr later
      ];
      entered = λ x c h f. elim h [
        | inl here ↦ let gone = ap (λ n. lookup n index) here in cc
        | inr old ↦ s.entered x c old f
      ];
      wanted = λ c h. s.wanted c (inr h);
      found = s.found;
    }

    enter-IsSound :
        (f : SkillEntry)
        → lookup name index ≡ some f
        → IsSound result visited (name ∷ rest)
        → IsSound
            (result ++ f ∷ [])
            (name ∷ visited)
            (rest ++ unvisited (name ∷ visited) f.cascades)
    unfolding unvisited
    enter-IsSound f e s = record {
      kept = λ x h. (Any-append _ result (f ∷ [])).1 (inl (s.kept x h));
      closed = λ x c a b. elim ((Any-append _ result (f ∷ [])).0 a) [
        | inl old ↦ elim (s.closed x c old b) [
          | inl v ↦ inl (inr v)
          | inr (inl here) ↦ inl (inl here)
          | inr (inr later) ↦ inr ((Any-append _ rest _).1 (inl later))
        ]
        | inr (inl same) ↦ elim (Bool-cases (elem c (name ∷ visited))) [
          | inl v ↦ inl ((elem_iff c (name ∷ visited)).0 v)
          | inr v ↦ inr (
              (Any-append _ rest _).1 (
                inr (
                  (IsIn-select (λ d. not (elem d (name ∷ visited))) c f.cascades).1
                    (subst (λ g. IsIn c g.cascades) (sym same) b, rw v refl))))
        ]
        | inr (inr no_more) ↦ absurd no_more
      ];
      entered = λ x c h g. (Any-append _ result (f ∷ [])).1 (elim h [
        | inl here ↦ let hit = ap (λ n. lookup n index) here in inr (inl (ground arith))
        | inr old ↦ inl (s.entered x c old g)
      ]);
      wanted = λ c h. elim ((Any-append _ rest _).0 h) [
        | inl old ↦ s.wanted c (inr old)
        | inr new ↦
            further name f c (s.wanted name (inl refl)) e
              ((IsIn-select (λ d. not (elem d (name ∷ visited))) c f.cascades).0 new).0
      ];
      found = λ x h. elim ((Any-append _ result (f ∷ [])).0 h) [
        | inl old ↦ s.found x old
        | inr (inl same) ↦ inr (name, s.wanted name (inl refl), e ∙ ap some same)
        | inr (inr no_more) ↦ absurd no_more
      ];
    }

  pub resolve-IsSound :
      (fuel : ℕ) (result : List SkillEntry) (visited pending : List String)
      → length pending + remaining visited index < fuel
      → IsSound result visited pending
      → (out : List SkillEntry) × (seen : List String) × (resolve index fuel
            (state result visited pending)
          ≡ some out)
        × IsSound out seen []
  unfolding resolve
  resolve-IsSound zero result visited pending h s = absurd (omega arith)
  resolve-IsSound (suc fuel) result visited [] h s = (result, visited, refl, s)
  resolve-IsSound (suc fuel) result visited (name ∷ rest) h s =
      elim (Bool-cases (elem name visited)) [
        | inl old ↦ rw old (
            resolve-IsSound fuel result visited rest (omega (arith, h))
              (skip-IsSound result visited name rest old s))
        | inr new ↦ elim (Option-cases (lookup name index)) [
          | inl gone ↦
              let less = remaining-cons name visited index in
              rw (new, gone)
                (resolve-IsSound fuel result (name ∷ visited) rest (omega (arith, h, less))
                  (missing-IsSound result visited name rest gone s))
          | inr (f, hit) ↦
              let more = unvisited (name ∷ visited) f.cascades in
              let less = remaining-lookup name visited index f hit new in
              rw (new, hit)
                (resolve-IsSound fuel (result ++ f ∷ []) (name ∷ visited) (rest ++ more)
                  (omega (
                    arith,
                    h,
                    less,
                    length-append rest more,
                    length-unvisited (name ∷ visited) f.cascades,
                  ))
                  (enter-IsSound result visited name rest f hit s))
        ]
      ]
