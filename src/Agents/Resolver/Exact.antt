-- ===== src/Agents/Resolver/Exact.antt =====
-- The counts of agents/custom/dependency_resolver.py are exact where no dependency is listed twice.
use auto_builder.Base.{
  suc, ◌-◌, ◌<◌, String, true, false, List, [], ◌∷◌, ◌++◌, ◌≡◌, refl, ◌∙◌, inl, inr, ◌&&◌, nat_eq,
  if◌then◌else◌, elem, select, All, arith, eq_iff, elem-append, Bool-cases, IsDistinct,
}
use auto_builder.Sessions.State.{elem-sort_texts}
use auto_builder.Agents.Resolver.{Sorting, lower, is_lowered, relax}
use auto_builder.Agents.Resolver.Relaxing.{open_among, unmet}

module _ (names : List String) (graph : String → List String) where
  open_among-absent :
      (node : String) (done deps : List String)
      → elem node deps ≡ false
      → open_among names graph done deps ≡ open_among names graph (done ++ node ∷ []) deps
  unfolding open_among select elem
  open_among-absent node done [] absent = refl
  open_among-absent node done (d ∷ deps) absent = ground (
    arith,
    open_among-absent node done deps,
    elem-append d done (node ∷ []),
    eq_iff node d,
    eq_iff d node,
  )

  -- Of distinct dependencies, one at most is met when a node is done.
  pub open_among-once :
      (node : String) (done deps : List String)
      → elem node names ≡ true
      → elem node done ≡ false
      → IsDistinct deps
      → open_among names graph done deps ≡ (
          if elem node deps
          then suc (open_among names graph (done ++ node ∷ []) deps)
          else open_among names graph (done ++ node ∷ []) deps)
  unfolding open_among select elem
  open_among-once node done [] known new distinct = refl
  open_among-once node done (d ∷ deps) known new distinct = ground (
    arith,
    open_among-once node done deps known new distinct.1,
    open_among-absent node done deps,
    distinct.0,
    elem-append d done (node ∷ []),
    elem-append node done (node ∷ []),
    eq_iff node d,
    eq_iff d node,
  )

  -- A name that is neither done nor queued counts its open dependencies, and has some.
  pub record IsExact (node : String) (done todo : List String) (s : Sorting) : Type 0 where
    pub counts :
        (n : String)
        → elem n names ≡ true
        → elem n done ≡ false
        → elem n s.queue ≡ false
        → s.in_deg n ≡ (
            if elem n todo && elem node (graph n)
            then suc (unmet names graph done n)
            else unmet names graph done n)
    pub some_open :
        (n : String)
        → elem n names ≡ true
        → elem n done ≡ false
        → elem n s.queue ≡ false
        → 0 < s.in_deg n

  same-IsExact :
      (node name : String) (done todo : List String) (s : Sorting)
      → is_lowered graph node done name s ≡ false
      → IsExact node done (name ∷ todo) s
      → IsExact node done todo s
  unfolding elem
  same-IsExact node name done todo s e m = record {
    counts =
        λ n known new out. ground (arith, m.counts n known new out, e, eq_iff name n, new, out);
    some_open = m.some_open;
  }

  lower-IsExact :
      (node name : String) (done todo : List String) (s : Sorting)
      → is_lowered graph node done name s ≡ true
      → elem name todo ≡ false
      → elem name names ≡ true
      → IsExact node done (name ∷ todo) s
      → IsExact node done todo (lower name s)
  unfolding elem
  lower-IsExact node name done todo s e later known m =
      let new : elem name done ≡ false = ground (arith, e) in
      let out : elem name s.queue ≡ false = ground (arith, e) in
      let exact = m.counts name known new out in
      let joined = λ (n : String).
        elem-sort_texts n (s.queue ++ name ∷ []) ∙ elem-append n s.queue (name ∷ []) in
      elim (Bool-cases (nat_eq (s.in_deg name - 1) 0)) [
        | inl z ↦ rw z (record {
          counts = λ n known_n new_n out_n.
              ground
                (arith, m.counts n known_n new_n, joined n, out_n, eq_iff n name, eq_iff name n);
          some_open = λ n known_n new_n out_n.
              ground
                (arith, m.some_open n known_n new_n, joined n, out_n, eq_iff n name, eq_iff name n);
        })
        | inr z ↦ rw z (record {
          counts = λ n known_n new_n out_n. ground (
            arith,
            m.counts n known_n new_n out_n,
            exact,
            e,
            later,
            eq_iff n name,
            eq_iff name n,
          );
          some_open = λ n known_n new_n out_n.
              ground (arith, m.some_open n known_n new_n out_n, z, eq_iff n name, eq_iff name n);
        })
      ]

  pub relax-IsExact :
      (node : String) (done todo : List String) (s : Sorting)
      → IsDistinct todo
      → All (λ n. elem n names ≡ true) todo
      → IsExact node done todo s
      → IsExact node done [] (relax graph node done todo s)
  unfolding relax
  relax-IsExact node done [] s d known m = m
  relax-IsExact node done (name ∷ todo) s d known m =
      elim (Bool-cases (is_lowered graph node done name s)) [
        | inl e ↦ rw e (
            relax-IsExact node done todo (lower name s) d.1 known.1
              (lower-IsExact node name done todo s e d.0 known.0 m))
        | inr e ↦
            rw e
              (relax-IsExact node done todo s d.1 known.1 (same-IsExact node name done todo s e m))
      ]
