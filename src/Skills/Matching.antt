-- ===== src/Skills/Matching.antt =====
-- What the skill library matches, and in which order.
use Prim.Native.String.{compare}
use text.Mathlib.Text.{is_le}
use auto_builder.Base.{
  true, false, List, [], ◌∷◌, ◌≡◌, refl, ◌↔◌, ◌⊎◌, inl, inr, select, not, Dict, Any, IsIn,
  IsIn-select, IsIn-sort_by, IsOrdered, sort_by-IsOrdered, arith, Bool-cases, is_nil, if◌then◌else◌,
  is_le-total,
}
use auto_builder.Skills.{
  TriggerSpec, SkillEntry, SkillMatchContext, Texts, ℤ, pos, negsuc, is_match, matched_types,
  match_description_keywords, is_matched, lt_int, ranks_before, entries, match_skills,
}

module _ (t : Texts) (context : SkillMatchContext) where
  -- Some trigger fits; or there is none, and the description does.
  abbrev pub Fits : SkillEntry → Type 0
  Fits e =
      Any (λ (s : TriggerSpec). is_match t e context s.trigger_type s.value ≡ true) e.triggers
      ⊎ ((e.triggers ≡ []) × (match_description_keywords t e.description context ≡ true))

  matched_types_iff :
      (e : SkillEntry) (specs : List TriggerSpec)
      → (not (is_nil (matched_types t e context specs)) ≡ true)
        ↔ Any (λ (s : TriggerSpec). is_match t e context s.trigger_type s.value ≡ true) specs
  unfolding matched_types
  matched_types_iff e [] = (λ h. cc, λ h. absurd h)
  matched_types_iff e (s ∷ specs) =
      elim (Bool-cases (is_match t e context s.trigger_type s.value)) [
        | inl b ↦ rw b (λ h. inl refl, λ h. refl)
        | inr b ↦ rw b (
          λ h. inr ((matched_types_iff e specs).0 h),
          λ h. elim h [ inl here ↦ cc | inr there ↦ (matched_types_iff e specs).1 there ],
        )
      ]

  triggered :
      (e : SkillEntry) (specs : List TriggerSpec)
      → ((if is_nil specs
            then match_description_keywords t e.description context
            else not (is_nil (matched_types t e context specs)))
          ≡ true)
        ↔ (Any (λ (s : TriggerSpec). is_match t e context s.trigger_type s.value ≡ true) specs
            ⊎ ((specs ≡ []) × (match_description_keywords t e.description context ≡ true)))
  triggered e [] = (λ h. inr (refl, h), λ h. elim h [ inl f ↦ absurd f | inr b ↦ b.1 ])
  triggered e (s ∷ specs) = (
    λ h. inl ((matched_types_iff e (s ∷ specs)).0 h),
    λ h. elim h [ inl f ↦ (matched_types_iff e (s ∷ specs)).1 f | inr b ↦ cc ],
  )

  is_matched_iff : (e : SkillEntry) → (is_matched t context e ≡ true) ↔ Fits e
  unfolding is_matched
  is_matched_iff e = triggered e e.triggers

-- A higher priority, or the same and a name that is not later.
abbrev pub Ranks : SkillEntry → SkillEntry → Type 0
Ranks a b =
    (lt_int b.priority a.priority ≡ true)
    ⊎ ((a.priority ≡ b.priority) × (is_le (compare a.name b.name) ≡ true))

int_trichotomy : (a b : ℤ) → (lt_int a b ≡ true) ⊎ ((lt_int b a ≡ true) ⊎ (a ≡ b))
unfolding lt_int
int_trichotomy (pos a) (pos b) = ground arith
int_trichotomy (pos a) (negsuc b) = inr (inl refl)
int_trichotomy (negsuc a) (pos b) = inl refl
int_trichotomy (negsuc a) (negsuc b) = ground arith

lt_int-asymm : (a b : ℤ) → lt_int a b ≡ true → lt_int b a ≡ false
unfolding lt_int
lt_int-asymm (pos a) (pos b) h = ground arith
lt_int-asymm (pos a) (negsuc b) h = cc
lt_int-asymm (negsuc a) (pos b) h = refl
lt_int-asymm (negsuc a) (negsuc b) h = ground arith

ranks_before-Ranks : (a b : SkillEntry) → ranks_before a b ≡ true → Ranks a b
ranks_before-Ranks a b h = ground (arith, int_trichotomy a.priority b.priority)

not_ranks_before-Ranks : (a b : SkillEntry) → ranks_before a b ≡ false → Ranks b a
not_ranks_before-Ranks a b h = ground (
  arith,
  int_trichotomy a.priority b.priority,
  lt_int-asymm a.priority b.priority,
  is_le-total a.name b.name,
)

-- The library matches exactly the indexed skills of which a trigger fits, or which have no triggers
-- and whose description does; they come by falling priority, and by name among those of one priority.
pub match_skills-Fits :
    (t : Texts) (index : Dict SkillEntry) (context : SkillMatchContext)
    → IsOrdered Ranks (match_skills t index context)
      × ((e : SkillEntry)
          → IsIn e (match_skills t index context) ↔ (IsIn e (entries index) × Fits t context e))
unfolding match_skills
match_skills-Fits t index context = (
  sort_by-IsOrdered Ranks ranks_before ranks_before-Ranks not_ranks_before-Ranks
      (select (is_matched t context) (entries index)),
  λ e. (
    λ h.
        let found =
          (IsIn-select (is_matched t context) e (entries index)).0
            ((IsIn-sort_by ranks_before e _).0 h) in
        (found.0, (is_matched_iff t context e).0 found.1),
    λ h. (IsIn-sort_by ranks_before e _).1 (
        (IsIn-select (is_matched t context) e (entries index)).1
          (h.0, (is_matched_iff t context e).1 h.1)),
  ),
)
