-- ===== src/Workflows/Manifest/Names.antt =====
-- The unique-name check of a manifest, against the definition of a list without duplicates.
use auto_builder.Base.{
  String, true, false, List, [], ◌∷◌, ◌++◌, ◌≡◌, refl, ◌↔◌, map, elem, All, arith, eq_iff,
  Bool-cases, inl, inr,
}
use auto_builder.Workflows.Manifest.{
  StageDef, WorkflowManifest, no_duplicate, validator_names, stage_validator_names,
  has_unique_names,
}

-- No text of the list occurs again behind its place.
abbrev pub IsDistinct : List String → Type 0
IsDistinct [] = Unit
IsDistinct (n ∷ names) = (elem n names ≡ false) × IsDistinct names

abbrev Misses : List String → List String → Type 0
Misses seen names = All (λ n. elem n seen ≡ false) names

Misses-cons :
    (n : String) (seen names : List String)
    → Misses (n ∷ seen) names ↔ (Misses seen names × (elem n names ≡ false))
unfolding elem
Misses-cons n seen [] = (λ h. (tt, refl), λ h. tt)
Misses-cons n seen (m ∷ names) = (
  λ h.
      let rest = (Misses-cons n seen names).0 h.1 in
      ((ground (arith, h.0), rest.0), ground (arith, h.0, rest.1, eq_iff n m, eq_iff m n)),
  λ h. (
    ground (arith, h.0, h.1, eq_iff n m, eq_iff m n),
    (Misses-cons n seen names).1 (h.0.1, ground (arith, h.1)),
  ),
)

no_duplicate_iff :
    (seen names : List String)
    → (no_duplicate seen names ≡ true) ↔ (Misses seen names × IsDistinct names)
unfolding no_duplicate
no_duplicate_iff seen [] = (λ h. (tt, tt), λ h. refl)
no_duplicate_iff seen (n ∷ names) = elim (Bool-cases (elem n seen)) [
  | inl e ↦ rw e (λ h. cc, λ h. cc)
  | inr e ↦ rw e (
    λ h.
        let rest = (no_duplicate_iff (n ∷ seen) names).0 h in
        let apart = (Misses-cons n seen names).0 rest.0 in ((refl, apart.0), (apart.1, rest.1)),
    λ h. (no_duplicate_iff (n ∷ seen) names).1 ((Misses-cons n seen names).1 (h.0.1, h.1.0), h.1.1),
  )
]

Misses-nil : (names : List String) → Misses [] names
unfolding elem
Misses-nil [] = tt
Misses-nil (n ∷ names) = (refl, Misses-nil names)

-- The model validator accepts a manifest exactly if its stage names are distinct, and the names of
-- its own validators and of all its stages' validators are distinct together.
has_unique_names_iff :
    (m : WorkflowManifest)
    → (has_unique_names m ≡ true) ↔ (
        IsDistinct (map (λ (s : StageDef). s.name) m.stages)
        × IsDistinct (validator_names m.validators ++ stage_validator_names m.stages))
unfolding has_unique_names
has_unique_names_iff m =
    let stages = no_duplicate_iff [] (map (λ (s : StageDef). s.name) m.stages) in
    let validators =
      no_duplicate_iff [] (validator_names m.validators ++ stage_validator_names m.stages) in
    (
      λ h. ((stages.0 (ground (arith, h))).1, (validators.0 (ground (arith, h))).1),
      λ h. ground (arith, stages.1 (Misses-nil _, h.0), validators.1 (Misses-nil _, h.1)),
    )
