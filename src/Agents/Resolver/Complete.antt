-- ===== src/Agents/Resolver/Complete.antt =====
-- agents/custom/dependency_resolver.py finds an order wherever there is one.
use mathlib.Core.List.{append-nil, append_assoc}
use auto_builder.Base.{
  ℕ, zero, suc, ◌+◌, ◌≤◌, String, some, true, false, List, [], ◌∷◌, ◌++◌, ◌≡◌, refl, ◌∙◌, inl, inr,
  nat_eq, elem, select, length, length-append, All, All-zip, arith, eq_iff, elem-append, elem-All,
  Bool-cases, IsDistinct,
}
use auto_builder.Sessions.State.{elem-sort_texts, elem-select}
use auto_builder.Agents.Resolver.{Sorting, relax, degree, drain, initial, topological_sort}
use auto_builder.Agents.Resolver.Distinct.{IsDistinct-length}
use auto_builder.Agents.Resolver.Relaxing.{open_among, unmet}
use auto_builder.Agents.Resolver.Exact.{IsExact, open_among-once, relax-IsExact}
use auto_builder.Agents.Resolver.Order.{
  IsOrder, IsSorting, popped-IsSorting, initial-IsSorting, unmet-none,
}

module _ (names : List String) (graph : String → List String) where
  -- More that is done leaves fewer open.
  open_among-le :
      (before done deps : List String)
      → ((n : String) → elem n before ≡ true → elem n names ≡ true → elem n done ≡ true)
      → open_among names graph done deps ≤ open_among names graph before deps
  unfolding open_among select
  open_among-le before done [] within = omega arith
  open_among-le before done (d ∷ deps) within =
      ground (arith, open_among-le before done deps within, within d)

  module _ (result : List String) (in_deg : String → ℕ)
      (exact : (node : String)
        → IsExact names graph node result [] (record { in_deg = in_deg; queue = [] })) where
    abbrev AllDone : List String → Type 0
    AllDone order = (n : String) → elem n order ≡ true → elem n names ≡ true → elem n result ≡ true

    next_done :
        (x : String) (before : List String)
        → unmet names graph before x ≡ 0
        → AllDone before
        → AllDone (before ++ x ∷ [])
    unfolding elem unmet open_among
    next_done x before met within m joined known = elim (Bool-cases (elem m result)) [
      | inl e ↦ e
      | inr e ↦ ground (
        arith,
        (exact m).counts m known e refl,
        (exact m).some_open m known e refl,
        open_among-le before result (graph m) within,
        within m,
        joined,
        elem-append m before (x ∷ []),
        eq_iff x m,
        met,
        e,
      )
    ]

    -- Where the queue is empty, an order shows that all its names are done.
    all_done :
        (before order : List String)
        → IsOrder names graph before order
        → AllDone before
        → AllDone (before ++ order)
    unfolding IsOrder
    all_done before [] ordered within = rw (append-nil before) within
    all_done before (x ∷ order) ordered within =
        rw (← append_assoc before (x ∷ []) order)
          (all_done (before ++ x ∷ []) order ordered.1 (next_done x before ordered.0 within))

  module _ (distinct : IsDistinct names)
      (once : (n : String) → elem n names ≡ true → IsDistinct (graph n)) where
    abbrev Exact : List String → Sorting → Type 0
    Exact result s = (node : String) → IsExact names graph node result [] s

    popped-Exact :
        (node : String) (queue result : List String) (in_deg : String → ℕ)
        → IsSorting names graph result (record { in_deg = in_deg; queue = node ∷ queue })
        → Exact result (record { in_deg = in_deg; queue = node ∷ queue })
        → IsExact names graph node
            (result ++ node ∷ [])
            names
            (record { in_deg = in_deg; queue = queue })
    unfolding elem unmet open_among
    popped-Exact node queue result in_deg h exact =
        let m = exact node in
        let sorted = h.relaxed node in
        let known : elem node names ≡ true =
          sorted.listed node (ground (arith, eq_iff node node)) in
        let new : elem node result ≡ false = sorted.fresh node (ground (arith, eq_iff node node)) in
        record {
          counts = λ n known_n new_n out_n. ground (
            arith,
            m.counts n known_n,
            open_among-once names graph node result (graph n) known new (once n known_n),
            elem-append n result (node ∷ []),
            new_n,
            out_n,
            eq_iff node n,
          );
          some_open = λ n known_n new_n out_n. ground (
            arith,
            m.some_open n known_n,
            elem-append n result (node ∷ []),
            new_n,
            out_n,
            eq_iff node n,
          );
        }

    initial-Exact : Exact [] (initial names graph)
    unfolding elem unmet degree open_among
    initial-Exact node =
        let joined = λ (n : String).
          elem-sort_texts n (select (λ m. nat_eq (degree names graph m) 0) names)
          ∙ elem-select (λ m. nat_eq (degree names graph m) 0) n names in
        record {
          counts = λ n known new out. ground (arith, unmet-none names graph distinct (graph n));
          some_open = λ n known new out. ground (arith, joined n, out, known);
        }

    length-drain :
        (order : List String)
        → IsOrder names graph [] order
        → All (λ n. elem n order ≡ true) names
        → (fuel : ℕ) (result : List String) (in_deg : String → ℕ) (queue : List String)
        → IsSorting names graph result (record { in_deg = in_deg; queue = queue })
        → Exact result (record { in_deg = in_deg; queue = queue })
        → fuel + length result ≡ length names
        → length (drain names graph fuel result (record { in_deg = in_deg; queue = queue }))
          ≡ length names
    unfolding drain elem
    length-drain order ordered full zero result in_deg queue h exact fuel_left =
        omega (arith, fuel_left)
    length-drain order ordered full (suc fuel) result in_deg [] h exact fuel_left =
        let done = all_done result in_deg exact [] order ordered (λ n there known. cc) in
        let all = All-zip names (λ n there known. done n there known) full (elem-All names) in
        let enough = IsDistinct-length names result distinct all in omega (arith, enough, fuel_left)
    length-drain order ordered full (suc fuel) result in_deg (node ∷ queue) h exact fuel_left =
        let popped : Sorting = record { in_deg = in_deg; queue = queue } in
        let done = result ++ node ∷ [] in
        let next = relax graph node done names popped in
        let after =
          relax-IsExact names graph node done names popped distinct (elem-All names)
            (popped-Exact node queue result in_deg h exact) in
        length-drain order ordered full fuel done next.in_deg next.queue
          (popped-IsSorting names graph distinct node queue result in_deg h)
          (λ other. record { counts = after.counts; some_open = after.some_open })
          (omega (arith, fuel_left, length-append result (node ∷ [])))

-- Of distinct names whose dependencies are listed once each, the sort finds an order wherever some list
-- of all the names is one; so it answers a cycle only where there is no order.
pub topological_sort_complete :
    (names : List String) (graph : String → List String) (order : List String)
    → IsDistinct names
    → ((n : String) → elem n names ≡ true → IsDistinct (graph n))
    → IsOrder names graph [] order
    → All (λ n. elem n order ≡ true) names
    → (found : List String) × (topological_sort names graph ≡ some found)
unfolding topological_sort
topological_sort_complete names graph order distinct once ordered full =
    let whole =
      length-drain names graph distinct once order ordered full (length names) []
        (initial names graph).in_deg (initial names graph).queue
        (initial-IsSorting names graph distinct) (initial-Exact names graph distinct once)
        (omega arith) in
    (drain names graph (length names) [] (initial names graph), rw (full_length whole) refl)
  where
    full_length : {m n : ℕ} → m ≡ n → nat_eq m n ≡ true
    full_length e = ground arith
