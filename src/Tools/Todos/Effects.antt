-- ===== src/Tools/Todos/Effects.antt =====
-- What a call of todo_write of tools/task.py does to each item of the list.
use auto_builder.Base.{
  String, Option, none, some, false, List, [], ◌∷◌, ◌++◌, ◌≡◌, ◌≢◌, refl, ◌⊎◌, inl, inr, not, any,
  find, select, ◌==◌, if◌then◌else◌, eq_iff, arith, Bool-cases,
}
use auto_builder.Model.Values.{is_text}
use auto_builder.Tools.Todos.{
  Todo, pending, done, TodoAction, add, update, complete, remove, TodoReply, content_required,
  id_required, not_found, written, has_id, write_first, change, todo_write,
}

-- The item that an id stands for.
abbrev pub item : String → List Todo → Option Todo
item id = find (has_id id)

abbrev pub mapped : (Todo → Todo) → Option Todo → Option Todo
mapped f none = none
mapped f (some t) = some (f t)

abbrev pub or_added : Option Todo → Option Todo → Option Todo
or_added none new = new
or_added (some t) new = some t

-- What a call makes of the item `other`, which was `old`.
abbrev pub effect : String → TodoAction → String → String → String → Option Todo → Option Todo
effect new add id content other old =
    or_added old (
      if new == other
      then some (record { id = new; content = content; status = pending })
      else none)
effect new update id content other old =
    if id == other then mapped (λ t. record t { content = content }) old else old
effect new complete id content other old =
    if id == other then mapped (λ t. record t { status = done }) old else old
effect new remove id content other old = if id == other then none else old

item-write_first :
    (id other : String) (f : Todo → Todo) (todos : List Todo)
    → ((t : Todo) → (f t).id ≡ t.id)
    → item other (write_first id f todos)
      ≡ (if id == other then mapped f (item other todos) else item other todos)
unfolding write_first find
item-write_first id other f [] same = ground arith
item-write_first id other f (t ∷ todos) same = ground (
  arith,
  item-write_first id other f todos same,
  same t,
  eq_iff t.id id,
  eq_iff t.id other,
  eq_iff id other,
)

item-select :
    (id other : String) (todos : List Todo)
    → item other (select (λ t. not (has_id id t)) todos)
      ≡ (if id == other then none else item other todos)
unfolding select find
item-select id other [] = ground arith
item-select id other (t ∷ todos) =
    ground (arith, item-select id other todos, eq_iff t.id id, eq_iff t.id other, eq_iff id other)

item-append :
    (other : String) (todos : List Todo) (t : Todo)
    → item other (todos ++ t ∷ [])
      ≡ or_added (item other todos) (if t.id == other then some t else none)
unfolding find
item-append other [] t = refl
item-append other (x ∷ todos) t = ground (arith, item-append other todos t)

any-item : (id : String) (todos : List Todo) → any (has_id id) todos ≡ false → item id todos ≡ none
unfolding any find
any-item id [] h = refl
any-item id (t ∷ todos) h = ground (arith, any-item id todos)

-- What an error tells: a text that the action needs is empty, or no item has the id.
abbrev pub IsRefused : TodoAction → String → String → List Todo → TodoReply → Type 0
IsRefused action id content todos content_required =
    ((action ≡ add) ⊎ (action ≡ update)) × (is_text content ≡ false)
IsRefused action id content todos id_required = (action ≢ add) × (is_text id ≡ false)
IsRefused action id content todos not_found = (action ≢ add) × (item id todos ≡ none)
IsRefused action id content todos (written _) = ⊥

-- Either a call replies with an id, and has changed the item of its argument's id, or added one, as its
-- action says, and no other item; or it replies with an error and has changed nothing, because a text that
-- the action needs is empty or no item has the id, as the error says.
pub todo_write-effect :
    (new : String) (action : TodoAction) (id content : String) (todos : List Todo)
    → let (after, reply) = todo_write new action id content todos in
      (((written_id : String) × (reply ≡ written written_id))
        × ((other : String)
            → item other after ≡ effect new action id content other (item other todos)))
      ⊎ ((after ≡ todos) × IsRefused action id content todos reply)
unfolding todo_write change
todo_write-effect new add id content todos = elim (Bool-cases (is_text content)) [
  | inl c ↦ rw c (inl ((new, refl), λ other. item-append other todos _))
  | inr c ↦ rw c (inr (refl, (inl refl, c)))
]
todo_write-effect new update id content todos = elim (Bool-cases (is_text id)) [
  | inl i ↦ elim (Bool-cases (is_text content)) [
    | inl c ↦ elim (Bool-cases (any (has_id id) todos)) [
      | inl there ↦
          rw (i, c, there)
            (inl ((id, refl), λ other. item-write_first id other _ todos (λ t. refl)))
      | inr gone ↦ rw (i, c, gone) (inr (refl, ((λ e. cc), any-item id todos gone)))
    ]
    | inr c ↦ rw (i, c) (inr (refl, (inr refl, c)))
  ]
  | inr i ↦ rw i (inr (refl, ((λ e. cc), i)))
]
todo_write-effect new complete id content todos = elim (Bool-cases (is_text id)) [
  | inl i ↦ elim (Bool-cases (any (has_id id) todos)) [
    | inl there ↦
        rw (i, there) (inl ((id, refl), λ other. item-write_first id other _ todos (λ t. refl)))
    | inr gone ↦ rw (i, gone) (inr (refl, ((λ e. cc), any-item id todos gone)))
  ]
  | inr i ↦ rw i (inr (refl, ((λ e. cc), i)))
]
todo_write-effect new remove id content todos = elim (Bool-cases (is_text id)) [
  | inl i ↦ elim (Bool-cases (any (has_id id) todos)) [
    | inl there ↦ rw (i, there) (inl ((id, refl), λ other. item-select id other todos))
    | inr gone ↦ rw (i, gone) (inr (refl, ((λ e. cc), any-item id todos gone)))
  ]
  | inr i ↦ rw i (inr (refl, ((λ e. cc), i)))
]
