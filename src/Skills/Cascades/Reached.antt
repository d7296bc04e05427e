-- ===== src/Skills/Cascades/Reached.antt =====
-- What resolve_cascades adds to the entries that it is given.
use auto_builder.Base.{
  suc, ◌+◌, String, some, List, [], ◌∷◌, ◌≡◌, refl, sym, subst, ◌↔◌, ◌⊎◌, inl, inr, not, map, elem,
  Dict, lookup, length, All, IsIn, IsIn-select, Any-append, elem_iff, arith, Bool-cases,
}
use auto_builder.Skills.{SkillEntry}
use auto_builder.Skills.Cascades.{unvisited, first_pending, all_cascades, resolve_cascades}
use auto_builder.Skills.Cascades.Closure.{
  Wanted, direct, further, IsSound, remaining-le, resolve-IsSound,
}

names : List SkillEntry → List String
names = map (λ (e : SkillEntry). e.name)

first_pending-Wanted :
    (index : Dict SkillEntry) (entries es : List SkillEntry) (visited : List String)
    → ((e : SkillEntry) → IsIn e es → IsIn e entries)
    → (c : String) → IsIn c (first_pending visited es)
    → Wanted index entries c
unfolding first_pending unvisited
first_pending-Wanted index entries [] visited sub c h = absurd h
first_pending-Wanted index entries (e ∷ es) visited sub c h =
    elim ((Any-append _ (unvisited visited e.cascades) _).0 h) [
      | inl here ↦
          direct e c (sub e (inl refl))
            ((IsIn-select (λ d. not (elem d visited)) c e.cascades).0 here).0
      | inr there ↦ first_pending-Wanted index entries es visited (λ x k. sub x (inr k)) c there
    ]

first_pending_complete :
    (es : List SkillEntry) (visited : List String) (e : SkillEntry) (c : String)
    → IsIn e es
    → IsIn c e.cascades
    → IsIn c visited ⊎ IsIn c (first_pending visited es)
unfolding first_pending unvisited
first_pending_complete [] visited e c h k = absurd h
first_pending_complete (x ∷ es) visited e c (inl here) k = elim (Bool-cases (elem c visited)) [
  | inl v ↦ inl ((elem_iff c visited).0 v)
  | inr v ↦ inr (
      (Any-append _ (unvisited visited x.cascades) _).1 (
        inl (
          (IsIn-select (λ d. not (elem d visited)) c x.cascades).1
            (subst (λ (g : SkillEntry). IsIn c g.cascades) (sym here) k, rw v refl))))
]
first_pending_complete (x ∷ es) visited e c (inr there) k =
    elim (first_pending_complete es visited e c there k) [
      | inl v ↦ inl v
      | inr p ↦ inr ((Any-append _ (unvisited visited x.cascades) _).1 (inr p))
    ]

-- The entry that the index holds under an entry's name is that entry.
abbrev pub IsIndexed : Dict SkillEntry → SkillEntry → Type 0
IsIndexed index e = lookup e.name index ≡ some e

IsIndexed-names :
    (index : Dict SkillEntry) (es : List SkillEntry)
    → All (IsIndexed index) es
    → (e : SkillEntry) (c : String) → IsIn c (names es)
    → lookup c index ≡ some e
    → IsIn e es
unfolding names
IsIndexed-names index [] all e c h hit = absurd h
IsIndexed-names index (x ∷ es) all e c (inl here) hit =
    let own : lookup c index ≡ some x = rw (← here) all.0 in inl (ground arith)
IsIndexed-names index (x ∷ es) all e c (inr there) hit =
    inr (IsIndexed-names index es all.1 e c there hit)

initial-IsSound :
    (index : Dict SkillEntry) (entries : List SkillEntry)
    → All (IsIndexed index) entries
    → IsSound index entries entries (names entries) (first_pending (names entries) entries)
initial-IsSound index entries all = record {
  kept = λ e h. h;
  closed = λ e c h k. first_pending_complete entries (names entries) e c h k;
  entered = λ e c h hit. IsIndexed-names index entries all e c h hit;
  wanted = first_pending-Wanted index entries entries (names entries) (λ e h. h);
  found = λ e h. inl h;
}

Wanted-visited :
    (index : Dict SkillEntry) (entries out : List SkillEntry) (seen : List String)
    → IsSound index entries out seen []
    → {c : String} → Wanted index entries c
    → IsIn c seen
Wanted-visited index entries out seen s (direct e c h k) = elim (s.closed e c (s.kept e h) k) [
  | inl v ↦ v
  | inr f ↦ absurd f
]
Wanted-visited index entries out seen s (further b e c w hit k) =
    let before = Wanted-visited index entries out seen s w in
    elim (s.closed e c (s.entered e b before hit) k) [ inl v ↦ v | inr f ↦ absurd f ]

-- With entries of the index the loop ends, cycles of references included, and its result is exactly
-- the entries and the indexed skills that the cascades lead to from them, through any number of steps.
pub resolve_cascades-Wanted :
    (index : Dict SkillEntry) (entries : List SkillEntry)
    → All (IsIndexed index) entries
    → (out : List SkillEntry) × (resolve_cascades index entries ≡ some out)
      × ((e : SkillEntry)
          → IsIn e out ↔ (
              IsIn e entries ⊎ ((c : String) × Wanted index entries c × (lookup c index ≡ some e))))
unfolding resolve_cascades names
resolve_cascades-Wanted index entries all =
    let pending = first_pending (names entries) entries in
    let run =
      resolve-IsSound index entries (suc (length pending + all_cascades index)) entries
        (names entries) pending (omega (arith, remaining-le (names entries) index))
        (initial-IsSound index entries all) in
    (
      run.0,
      run.2,
      λ e. (
        λ h. run.3.found e h,
        λ h. elim h [
          | inl own ↦ run.3.kept e own
          | inr (c, w, hit) ↦
              run.3.entered e c (Wanted-visited index entries run.0 run.1 run.3 w) hit
        ],
      ),
    )
