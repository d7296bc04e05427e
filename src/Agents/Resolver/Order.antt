-- ===== src/Agents/Resolver/Order.antt =====
-- An order of agents/custom/dependency_resolver.py has each name after what it depends on.
use auto_builder.Base.{
  IsDistinct, ℕ, zero, suc, String, some, true, false, List, [], ◌∷◌, ◌++◌, ◌≡◌, refl, sym, ◌∙◌,
  inl, inr, nat_eq, elem, select, length, All, arith, eq_iff, elem-append, elem-All, Bool-cases,
}
use mathlib.Core.List.{append-nil, append_assoc}
use auto_builder.Sessions.State.{elem-sort_texts, elem-select}
use auto_builder.Agents.Resolver.{Sorting, relax, degree, drain, initial, topological_sort}
use auto_builder.Agents.Resolver.Distinct.{
  sort_texts-IsDistinct, append-IsDistinct, select-IsDistinct,
}
use auto_builder.Agents.Resolver.Relaxing.{
  open_among, unmet, unmet-fewer, unmet-less, IsRelaxing, relax-IsRelaxing,
}

module _ (names : List String) (graph : String → List String) where
  -- Each name comes after its dependencies.
  unfoldable pub IsOrder : List String → List String → Type 0
  IsOrder done [] = Unit
  IsOrder done (n ∷ order) = (unmet names graph done n ≡ 0) × IsOrder (done ++ n ∷ []) order

  IsOrder-append :
      (done order : List String) (n : String)
      → IsOrder done order
      → unmet names graph (done ++ order) n ≡ 0
      → IsOrder done (order ++ n ∷ [])
  unfolding IsOrder
  IsOrder-append done [] n o z = (rw (append-nil done) at z, tt)
  IsOrder-append done (x ∷ order) n o z =
      (o.0, IsOrder-append (done ++ x ∷ []) order n o.1 (rw (append_assoc done (x ∷ []) order) z))

  -- Between two nodes: the result is in order, and the queue holds what can follow it.
  pub record IsSorting (result : List String) (s : Sorting) : Type 0 where
    pub relaxed : (node : String) → IsRelaxing names graph node result [] s
    pub order : IsOrder [] result
    pub known : All (λ n. elem n names ≡ true) result
    pub distinct : IsDistinct result

  All-append :
      (xs : List String) (y : String)
      → All (λ n. elem n names ≡ true) xs
      → elem y names ≡ true
      → All (λ n. elem n names ≡ true) (xs ++ y ∷ [])
  All-append [] y h e = (e, tt)
  All-append (x ∷ xs) y h e = (h.0, All-append xs y h.1 e)

  popped-IsRelaxing :
      (node : String) (queue result : List String) (in_deg : String → ℕ)
      → IsSorting result (record { in_deg = in_deg; queue = node ∷ queue })
      → IsRelaxing names graph node
          (result ++ node ∷ [])
          names
          (record { in_deg = in_deg; queue = queue })
  unfolding elem unmet open_among
  popped-IsRelaxing node queue result in_deg h =
      let m = h.relaxed node in
      let done = result ++ node ∷ [] in
      let joined = λ (n : String). elem-append n result (node ∷ []) in
      let known : elem node names ≡ true = m.listed node (ground (arith, eq_iff node node)) in
      let new : elem node result ≡ false = m.fresh node (ground (arith, eq_iff node node)) in
      record {
        ready = λ n e. ground (arith, m.ready n, e, unmet-fewer names graph node result (graph n));
        bounded = λ n new_n out_n. ground (
          arith,
          m.bounded n,
          joined n,
          new_n,
          out_n,
          unmet-fewer names graph node result (graph n),
          unmet-less names graph node result (graph n) known new,
          eq_iff node n,
        );
        listed = λ n e. m.listed n (ground (arith, e));
        fresh = λ n e. ground (arith, m.fresh n, joined n, e, m.once.0, eq_iff node n);
        once = m.once.1;
      }

  module _ (names_distinct : IsDistinct names) where
    pub popped-IsSorting :
        (node : String) (queue result : List String) (in_deg : String → ℕ)
        → IsSorting result (record { in_deg = in_deg; queue = node ∷ queue })
        → IsSorting (result ++ node ∷ []) (
            relax graph node
              (result ++ node ∷ [])
              names
              (record { in_deg = in_deg; queue = queue }))
    unfolding elem
    popped-IsSorting node queue result in_deg h =
        let done = result ++ node ∷ [] in
        let m = h.relaxed node in
        let known : elem node names ≡ true = m.listed node (ground (arith, eq_iff node node)) in
        let new : elem node result ≡ false = m.fresh node (ground (arith, eq_iff node node)) in
        let after =
          relax-IsRelaxing names graph node done names (record { in_deg = in_deg; queue = queue })
            names_distinct (elem-All names) (popped-IsRelaxing node queue result in_deg h) in
        record {
          relaxed = λ other. record {
            ready = after.ready;
            bounded = after.bounded;
            listed = after.listed;
            fresh = after.fresh;
            once = after.once;
          };
          order =
              IsOrder-append [] result node h.order
                (m.ready node (ground (arith, eq_iff node node)));
          known = All-append result node h.known known;
          distinct = append-IsDistinct result node h.distinct new;
        }

    drain-IsSorting :
        (fuel : ℕ) (result : List String) (in_deg : String → ℕ) (queue : List String)
        → IsSorting result (record { in_deg = in_deg; queue = queue })
        → let order = drain names graph fuel result (record { in_deg = in_deg; queue = queue }) in
          IsOrder [] order × All (λ n. elem n names ≡ true) order × IsDistinct order
    unfolding drain
    drain-IsSorting zero result in_deg queue h = (h.order, h.known, h.distinct)
    drain-IsSorting (suc fuel) result in_deg [] h = (h.order, h.known, h.distinct)
    drain-IsSorting (suc fuel) result in_deg (node ∷ queue) h =
        let next =
          relax graph node (result ++ node ∷ []) names
            (record { in_deg = in_deg; queue = queue }) in
        drain-IsSorting fuel (result ++ node ∷ []) next.in_deg next.queue
          (popped-IsSorting node queue result in_deg h)

    pub unmet-none :
        (deps : List String)
        → open_among names graph [] deps ≡ length (select (λ d. elem d names) deps)
    unfolding open_among select elem
    unmet-none [] = refl
    unmet-none (d ∷ deps) = ground (arith, unmet-none deps)

    pub initial-IsSorting : IsSorting [] (initial names graph)
    unfolding elem unmet degree IsOrder open_among
    initial-IsSorting =
        let joined = λ (n : String).
          elem-sort_texts n (select (λ m. nat_eq (degree names graph m) 0) names)
          ∙ elem-select (λ m. nat_eq (degree names graph m) 0) n names in
        record {
          relaxed = λ node. record {
            ready = λ n h. ground (arith, joined n, h, unmet-none (graph n));
            bounded = λ n new out. omega (arith, unmet-none (graph n));
            listed = λ n h. ground (arith, joined n, h);
            fresh = λ n h. refl;
            once = sort_texts-IsDistinct _ (select-IsDistinct _ names names_distinct);
          };
          order = tt;
          known = tt;
          distinct = tt;
        }

-- Of distinct names, an order lists every name once, each one after all the names that it depends on:
-- none of its dependencies on a listed name is missing among those before it.
pub topological_sort-IsOrder :
    (names : List String) (graph : String → List String) (order : List String)
    → IsDistinct names
    → topological_sort names graph ≡ some order
    → IsOrder names graph [] order
      × All (λ n. elem n names ≡ true) order
      × IsDistinct order
      × (length order ≡ length names)
unfolding topological_sort
topological_sort-IsOrder names graph order d e =
    let result = drain names graph (length names) [] (initial names graph) in
    let facts =
      drain-IsSorting names graph d (length names) [] (initial names graph).in_deg
        (initial names graph).queue (initial-IsSorting names graph d) in
    elim (Bool-cases (nat_eq (length result) (length names))) [
      | inr no_ ↦ let bad = rw no_ at e in cc
      | inl full ↦
          let e' = rw full at e in
          let same : result ≡ order = cc in
          rw (sym same) (facts.0, facts.1, facts.2, ground (arith, full))
    ]
