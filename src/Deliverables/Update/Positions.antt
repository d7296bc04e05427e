-- ===== src/Deliverables/Update/Positions.antt =====
-- What reorder_deliverables makes of an order: each deliverable's position is its index.
use auto_builder.Base.{
  ℕ, zero, suc, ◌+◌, String, Option, none, some, Bool, true, false, List, [], ◌∷◌, ◌≡◌, refl, ◌∙◌,
  ap, ◌==◌, map, any, select, elem, get_elem?, if◌then◌else◌, arith, eq_iff, Bool-cases, inl, inr,
  subst,
}
use auto_builder.Model.Rows.{Deliverable}
use auto_builder.Workflows.Manifest.Names.{IsDistinct}
use auto_builder.Deliverables.Update.{
  ok, find_row, set_order, assign_orders, all_known, all_parse, is_of_project, reorder_parsed,
  reorder_deliverables,
}

abbrev pub placed : ℕ → Deliverable → Deliverable
placed n d = record d { execution_order = some n }

abbrev placed_at : ℕ → Option Deliverable → Option Deliverable
placed_at n none = none
placed_at n (some d) = some (placed n d)

find_row-set_order :
    (did j : String) (n : ℕ) (rows : List Deliverable)
    → find_row did (map (set_order j n) rows)
      ≡ (if j == did then placed_at n (find_row did rows) else find_row did rows)
unfolding find_row
find_row-set_order did j n [] = ground arith
find_row-set_order did j n (d ∷ rows) =
    ground (arith, find_row-set_order did j n rows, eq_iff d.id j, eq_iff d.id did, eq_iff j did)

find_row-assign_orders :
    (did : String) (n : ℕ) (order : List String) (rows : List Deliverable)
    → elem did order ≡ false
    → find_row did (assign_orders n order rows) ≡ find_row did rows
unfolding assign_orders elem
find_row-assign_orders did n [] rows h = refl
find_row-assign_orders did n (j ∷ order) rows h =
    find_row-assign_orders did (suc n) order (map (set_order j n) rows) (ground arith)
    ∙ (find_row-set_order did j n rows ∙ ground arith)

assign_orders-position :
    (order : List String) (i n : ℕ) (did : String) (rows : List Deliverable) (d : Deliverable)
    → IsDistinct order
    → get_elem? order i ≡ some did
    → find_row did rows ≡ some d
    → find_row did (assign_orders n order rows) ≡ some (placed (n + i) d)
unfolding assign_orders
assign_orders-position [] i n did rows d distinct at h = cc
assign_orders-position (j ∷ order) zero n did rows d distinct at h =
    let same : j ≡ did = cc in
    find_row-assign_orders did (suc n) order (map (set_order j n) rows)
      (subst (λ k. elem k order ≡ false) same distinct.0)
    ∙ (find_row-set_order did j n rows ∙ rw h (ground (arith, eq_iff j did, same)))
assign_orders-position (j ∷ order) (suc i) n did rows d distinct at h =
    elim (Bool-cases (j == did)) [
      | inl again ↦
          assign_orders-position order i (suc n) did (map (set_order j n) rows) (placed n d)
            distinct.1 at (find_row-set_order did j n rows ∙ rw (again, h) refl)
          ∙ ap (λ k. some (placed k d)) (omega arith)
      | inr other ↦
          assign_orders-position order i (suc n) did (map (set_order j n) rows) d distinct.1 at
            (find_row-set_order did j n rows ∙ rw other h)
          ∙ ap (λ k. some (placed k d)) (omega arith)
    ]

known_row :
    (p : Deliverable → Bool) (did : String) (rows : List Deliverable)
    → any (λ (d : Deliverable). d.id == did) (select p rows) ≡ true
    → (d : Deliverable) × (find_row did rows ≡ some d)
unfolding any select find_row
known_row p did [] h = cc
known_row p did (d ∷ rows) h = elim (Bool-cases (d.id == did)) [
  | inl same ↦ (d, rw same refl)
  | inr other ↦ let (e, found) = known_row p did rows (ground arith) in (e, rw other found)
]

all_known-at :
    (order : List String) (i : ℕ) (did : String) (rows : List Deliverable)
    → all_known order rows ≡ true
    → get_elem? order i ≡ some did
    → any (λ (d : Deliverable). d.id == did) rows ≡ true
unfolding all_known
all_known-at [] i did rows h at = cc
all_known-at (j ∷ order) zero did rows h at =
    let same : j ≡ did = cc in
    subst (λ k. any (λ (d : Deliverable). d.id == k) rows ≡ true) same (ground arith)
all_known-at (j ∷ order) (suc i) did rows h at = all_known-at order i did rows (ground arith) at

reordered :
    (parse_uuid : String → Option String) (o : Option String) (order : List String) (n i : ℕ)
    (did : String) (rows : List Deliverable)
    → IsDistinct order
    → (reorder_parsed parse_uuid o order rows).1 ≡ ok n
    → get_elem? order i ≡ some did
    → (d : Deliverable) × (find_row did rows ≡ some d)
      × (find_row did (reorder_parsed parse_uuid o order rows).0 ≡ some (placed i d))
reordered parse_uuid none order n i did rows distinct h at = cc
reordered parse_uuid (some pid) order n i did rows distinct h at =
    elim (Bool-cases (all_parse parse_uuid order)) [
      | inr bad ↦ let refused = rw bad at h in cc
      | inl parses ↦ elim (Bool-cases (all_known order (select (is_of_project pid) rows))) [
        | inr bad ↦ let refused = rw (parses, bad) at h in cc
        | inl known ↦
            let (d, found) =
              known_row (is_of_project pid) did rows (all_known-at order i did _ known at) in
            rw (parses, known)
              (
                d,
                found,
                assign_orders-position order i 0 did rows d distinct at found
                    ∙ ap (λ k. some (placed k d)) (omega arith),
              )
      ]
    ]

-- Where reorder_deliverables accepts an order without repetitions, each id of it has a row, and the
-- row's execution order becomes the id's index; the row's other columns stay.
reorder_deliverables-position :
    (parse_uuid : String → Option String) (project_id : String) (order : List String) (n i : ℕ)
    (did : String) (rows : List Deliverable)
    → IsDistinct order
    → (reorder_deliverables parse_uuid project_id order rows).1 ≡ ok n
    → get_elem? order i ≡ some did
    → (d : Deliverable) × (find_row did rows ≡ some d)
      × (find_row did (reorder_deliverables parse_uuid project_id order rows).0 ≡ some (placed i d))
unfolding reorder_deliverables
reorder_deliverables-position parse_uuid project_id order n i did rows distinct h at =
    reordered parse_uuid (parse_uuid project_id) order n i did rows distinct h at
