-- ===== src/Queues/Resolution.antt =====
-- A closed item stays as it is, and is never acted on again.
use auto_builder.Base.{
  ℕ, String, Option, none, some, true, false, List, [], ◌∷◌, ◌≡◌, refl, ◌==◌, arith, eq_iff,
  Bool-cases, inl, inr, sym, ◌∙◌, subst,
}
use auto_builder.Model.Rows.{CeoQueueItem}
use auto_builder.Queues.{
  Queues, RouteReply, conflict, CeoRequest, is_closed_ceo, find_ceo, write_ceo, settle_ceo,
  resolve_ceo_found, resolve_ceo_queue_item,
}

find_ceo-id :
    (id : String) (items : List CeoQueueItem) (i : CeoQueueItem)
    → find_ceo id items ≡ some i
    → i.id ≡ id
unfolding find_ceo
find_ceo-id id [] i h = ground arith
find_ceo-id id (x ∷ items) i h = ground (arith, find_ceo-id id items i, eq_iff x.id id)

find_ceo-write_ceo :
    (id : String) (r : CeoQueueItem) (items : List CeoQueueItem)
    → (r.id == id) ≡ false
    → find_ceo id (write_ceo r items) ≡ find_ceo id items
unfolding find_ceo write_ceo
find_ceo-write_ceo id r [] h = refl
find_ceo-write_ceo id r (x ∷ items) h =
    ground
      (arith, find_ceo-write_ceo id r items h, eq_iff x.id r.id, eq_iff r.id id, eq_iff x.id id)

pub find_ceo-write_ceo_self :
    (r : CeoQueueItem) (items : List CeoQueueItem) (i : CeoQueueItem)
    → find_ceo r.id items ≡ some i
    → find_ceo r.id (write_ceo r items) ≡ some r
unfolding find_ceo write_ceo
find_ceo-write_ceo_self r [] i h = cc
find_ceo-write_ceo_self r (x ∷ items) i h =
    ground (arith, find_ceo-write_ceo_self r items i, eq_iff x.id r.id, eq_iff r.id r.id)

settle_ceo-id : (now : ℕ) (r : CeoRequest) (i : CeoQueueItem) → (settle_ceo now r i).id ≡ i.id
settle_ceo-id now r i = ground arith

settle_ceo-closed :
    (now : ℕ) (r : CeoRequest) (i : CeoQueueItem) → is_closed_ceo (settle_ceo now r i).status ≡ true
settle_ceo-closed now r i = ground arith

-- A call of the route.
pub record Call : Type 0 where
  pub now : ℕ
  pub item_id : String
  pub request : CeoRequest

unfoldable pub serve : List Call → Queues → Queues
serve [] q = q
serve (c ∷ cs) q = serve cs (resolve_ceo_queue_item c.now c.item_id c.request q).0

resolve_ceo_found-keeps :
    (c : Call) (o : Option CeoQueueItem) (q : Queues) (id : String) (i : CeoQueueItem)
    → find_ceo c.item_id q.ceo ≡ o
    → find_ceo id q.ceo ≡ some i
    → is_closed_ceo i.status ≡ true
    → find_ceo id (resolve_ceo_found c.now c.request o q).0.ceo ≡ some i
unfolding resolve_ceo_found
resolve_ceo_found-keeps c none q id i e h closed = h
resolve_ceo_found-keeps c (some x) q id i e h closed = elim (Bool-cases (is_closed_ceo x.status)) [
  | inl shut ↦ rw shut h
  | inr opened ↦ rw opened (elim (Bool-cases (x.id == id)) [
    | inr apart ↦
        find_ceo-write_ceo id (settle_ceo c.now c.request x) q.ceo
          (rw (settle_ceo-id c.now c.request x) apart)
        ∙ h
    | inl same ↦
        let there : c.item_id ≡ id =
          sym (find_ceo-id c.item_id q.ceo x e) ∙ (eq_iff x.id id).0 same in
        let twice : some i ≡ some x = sym h ∙ (rw there at e) in
        let one : x ≡ i = cc in
        let bad : is_closed_ceo i.status ≡ false = rw one at opened in cc (bad, closed)
  ])
]

-- A resolved or dismissed CEO item keeps its row, whatever calls of the route follow.
pub serve_closed :
    (cs : List Call) (q : Queues) (id : String) (i : CeoQueueItem)
    → find_ceo id q.ceo ≡ some i
    → is_closed_ceo i.status ≡ true
    → find_ceo id (serve cs q).ceo ≡ some i
unfolding serve resolve_ceo_queue_item
serve_closed [] q id i h closed = h
serve_closed (c ∷ cs) q id i h closed =
    serve_closed cs _ id i
      (resolve_ceo_found-keeps c (find_ceo c.item_id q.ceo) q id i refl h closed) closed

-- A second call on the same item, right after one that succeeded, is refused as a conflict and
-- changes nothing: no job is enqueued twice.
resolve_ceo_queue_item-twice :
    (now later : ℕ) (id : String) (r s : CeoRequest) (q : Queues)
    → (resolve_ceo_queue_item now id r q).1 ≡ RouteReply.ok
    → let q' = (resolve_ceo_queue_item now id r q).0 in
      resolve_ceo_queue_item later id s q' ≡ (q', conflict)
unfolding resolve_ceo_queue_item
resolve_ceo_queue_item-twice now later id r s q h = go (find_ceo id q.ceo) refl h
  where
    go :
        (o : Option CeoQueueItem)
        → find_ceo id q.ceo ≡ o
        → (resolve_ceo_found now r o q).1 ≡ RouteReply.ok
        → let q' = (resolve_ceo_found now r o q).0 in
          resolve_ceo_found later s (find_ceo id q'.ceo) q' ≡ (q', conflict)
    go none e k = cc
    go (some i) e k = elim (Bool-cases (is_closed_ceo i.status)) [
      | inl shut ↦ let bad = rw shut at k in cc
      | inr opened ↦
          let done = settle_ceo now r i in
          let named : done.id ≡ id = settle_ceo-id now r i ∙ find_ceo-id id q.ceo i e in
          let found : find_ceo id (write_ceo done q.ceo) ≡ some done =
            subst (λ k. find_ceo k (write_ceo done q.ceo) ≡ some done) named
              (find_ceo-write_ceo_self done q.ceo i (rw named e)) in
          rw (opened, found) (rw (settle_ceo-closed now r i) refl)
    ]
