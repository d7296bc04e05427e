-- ===== src/Workflows/Registry/Requests.antt =====
-- Which workflows a request matches.
use auto_builder.Base.{
  String, Bool, true, false, List, [], ◌∷◌, ◌++◌, ◌≡◌, refl, ◌∙◌, if◌then◌else◌, select, IsIn,
  IsIn-select, All, arith, is_nil, ◌↔◌, ◌⊎◌, inl, inr,
}
use mathlib.Core.List.{append-nil, append_assoc}
use auto_builder.Workflows.Registry.{
  WorkflowEntry, Registry, entries, Match, unmatched, by_name, by_keyword, Matches, match_triggers,
  add_match, collect, match_request, is_explicit, has_keyword,
}
use auto_builder.Model.Values.{Fields, get}

abbrev pub is_by_name : Match → Bool
is_by_name by_name = true
is_by_name _ = false

abbrev pub is_by_keyword : Match → Bool
is_by_keyword by_keyword = true
is_by_keyword _ = false

module _ {M : Type 0} (a b : Bool) (rest : Match) where
  named_step :
      ((is_by_name rest ≡ true) ↔ M)
      → (is_by_name (if a then by_name else if b then by_keyword else rest) ≡ true)
        ↔ ((a ≡ true) ⊎ ((b ≡ false) × M))
  named_step h = ground (arith, h)

  keyed_step :
      ((is_by_keyword rest ≡ true) ↔ M)
      → (is_by_keyword (if a then by_name else if b then by_keyword else rest) ≡ true)
        ↔ ((a ≡ false) × ((b ≡ true) ⊎ M))
  keyed_step h = ground (arith, h)

module _ (lower : String → String) (within : String → String → Bool) (request : String) where
  abbrev pub outcome : WorkflowEntry → Match
  outcome e = match_triggers lower within request e.triggers

  abbrev pub named : List WorkflowEntry → List WorkflowEntry
  named = select (λ e. is_by_name (outcome e))

  abbrev pub keyed : List WorkflowEntry → List WorkflowEntry
  keyed = select (λ e. is_by_keyword (outcome e))

  -- An explicit name with no keyword before it.
  abbrev pub IsNamed : List Fields → Type 0
  IsNamed [] = ⊥
  IsNamed (t ∷ ts) =
      (is_explicit lower within request (get t "explicit") ≡ true)
      ⊎ ((has_keyword lower within request (get t "keywords") ≡ false) × IsNamed ts)

  -- A keyword with no explicit name up to it.
  abbrev pub IsKeyed : List Fields → Type 0
  IsKeyed [] = ⊥
  IsKeyed (t ∷ ts) =
      (is_explicit lower within request (get t "explicit") ≡ false)
      × ((has_keyword lower within request (get t "keywords") ≡ true) ⊎ IsKeyed ts)

  is_by_name_iff :
      (ts : List Fields) → (is_by_name (match_triggers lower within request ts) ≡ true) ↔ IsNamed ts
  unfolding match_triggers
  is_by_name_iff [] = ground arith
  is_by_name_iff (t ∷ ts) =
      named_step (is_explicit lower within request (get t "explicit"))
        (has_keyword lower within request (get t "keywords")) _ (is_by_name_iff ts)

  is_by_keyword_iff :
      (ts : List Fields)
      → (is_by_keyword (match_triggers lower within request ts) ≡ true) ↔ IsKeyed ts
  unfolding match_triggers
  is_by_keyword_iff [] = ground arith
  is_by_keyword_iff (t ∷ ts) =
      keyed_step (is_explicit lower within request (get t "explicit"))
        (has_keyword lower within request (get t "keywords")) _ (is_by_keyword_iff ts)

  abbrev selected : List WorkflowEntry → Matches → Matches
  selected es m = record {
    explicit_matches = m.explicit_matches ++ named es;
    keyword_matches = m.keyword_matches ++ keyed es;
  }

  collect_step :
      (e : WorkflowEntry) (o : Match) (es : List WorkflowEntry) (m : Matches)
      → ((m' : Matches) → collect lower within request es m' ≡ selected es m')
      → collect lower within request es (add_match lower within request e o m) ≡ record {
        explicit_matches = m.explicit_matches ++ (if is_by_name o then e ∷ named es else named es);
        keyword_matches = m.keyword_matches ++ (if is_by_keyword o then e ∷ keyed es else keyed es);
      }
  collect_step e unmatched es m ih = ih m
  collect_step e by_name es m ih =
      ih _ ∙ rw (append_assoc m.explicit_matches (e ∷ []) (named es)) refl
  collect_step e by_keyword es m ih =
      ih _ ∙ rw (append_assoc m.keyword_matches (e ∷ []) (keyed es)) refl

  collect-select :
      (es : List WorkflowEntry) (m : Matches) → collect lower within request es m ≡ selected es m
  unfolding collect select
  collect-select [] m = rw (append-nil m.explicit_matches, append-nil m.keyword_matches) refl
  collect-select (e ∷ es) m = collect_step e (outcome e) es m (collect-select es)

  -- No workflow is matched by its name.
  abbrev pub IsUnnamed : List WorkflowEntry → Type 0
  IsUnnamed es = All (λ (e : WorkflowEntry). ¬ IsNamed e.triggers) es

  is_nil-named_iff : (es : List WorkflowEntry) → (is_nil (named es) ≡ true) ↔ IsUnnamed es
  unfolding select
  is_nil-named_iff [] = ground arith
  is_nil-named_iff (e ∷ es) =
      nil_step (is_by_name (outcome e)) (is_by_name_iff e.triggers) (is_nil-named_iff es)
    where
      nil_step :
          (b : Bool)
          → ((b ≡ true) ↔ IsNamed e.triggers)
          → ((is_nil (named es) ≡ true) ↔ IsUnnamed es)
          → (is_nil (if b then e ∷ named es else named es) ≡ true)
            ↔ (¬ IsNamed e.triggers × IsUnnamed es)
      nil_step true h ih = ground (arith, h)
      nil_step false h ih = ground (arith, h, ih)

  IsIn-preferred :
      (e : WorkflowEntry) (ns ks : List WorkflowEntry)
      → IsIn e (if is_nil ns then ks else ns) ↔ (IsIn e ns ⊎ ((is_nil ns ≡ true) × IsIn e ks))
  IsIn-preferred e [] ks = (λ h. inr (refl, h), λ h. elim h [ inl x ↦ elim x [ ] | inr (_, k) ↦ k ])
  IsIn-preferred e (n ∷ ns) ks = (λ h. inl h, λ h. elim h [ inl x ↦ x | inr (c, _) ↦ cc ])

  match_request-select :
      (r : Registry)
      → match_request lower within request r
        ≡ (if is_nil (named (entries r)) then keyed (entries r) else named (entries r))
  unfolding match_request
  match_request-select r =
      rw (collect-select (entries r) (record { explicit_matches = []; keyword_matches = [] })) refl

  -- A request matches the workflows that have it as an explicit name with no matching keyword before
  -- it, and if there are none, those that have a matching keyword.
  pub match_request_iff :
      (r : Registry) (e : WorkflowEntry)
      → IsIn e (match_request lower within request r)
        ↔ (IsIn e (entries r) × (IsNamed e.triggers ⊎ (IsUnnamed (entries r) × IsKeyed e.triggers)))
  match_request_iff r e =
      let es = entries r in
      rw (match_request-select r) (
        ground (
          arith,
          IsIn-preferred e (named es) (keyed es),
          IsIn-select (λ x. is_by_name (outcome x)) e es,
          IsIn-select (λ x. is_by_keyword (outcome x)) e es,
          is_by_name_iff e.triggers,
          is_by_keyword_iff e.triggers,
          is_nil-named_iff es,
        ))
