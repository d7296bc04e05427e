-- ===== src/Tools/Todos.antt =====
-- The todo tools of tools/task.py, on the session's list `todos`. An added item's id is chosen at random
-- and is given.
pub mod Effects
use auto_builder.Base.{
  ℕ, String, Bool, true, false, List, [], ◌∷◌, ◌++◌, not, any, select, ◌==◌, if◌then◌else◌,
}
use auto_builder.Model.Values.{is_text}

pub data TodoStatus : Type 0 where
  pending done : TodoStatus

pub data TodoAction : Type 0 where
  add update complete remove : TodoAction

pub record Todo : Type 0 where
  pub id : String
  pub content : String
  pub status : TodoStatus

-- The texts of the reply.
pub data TodoReply : Type 0 where
  content_required id_required not_found : TodoReply
  written : (id : String) → TodoReply

abbrev pub has_id : String → Todo → Bool
has_id id t = t.id == id

-- The first item of that id is changed, and the loop returns.
unfoldable pub write_first : String → (Todo → Todo) → List Todo → List Todo
write_first id f [] = []
write_first id f (t ∷ ts) =
    let rest = write_first id f ts in if has_id id t then f t ∷ ts else t ∷ rest

unfoldable pub change : String → (Todo → Todo) → List Todo → List Todo × TodoReply
unfolding any write_first
change id f todos =
    if any (has_id id) todos then (write_first id f todos, written id) else (todos, not_found)

unfoldable pub todo_write :
    String → TodoAction → String → String → List Todo → List Todo × TodoReply
unfolding change any select
todo_write new add id content todos =
    if is_text content
    then (todos ++ record { id = new; content = content; status = pending } ∷ [], written new)
    else (todos, content_required)
todo_write new update id content todos =
    if not (is_text id)
    then (todos, id_required)
    else if is_text content
    then change id (λ t. record t { content = content }) todos
    else (todos, content_required)
todo_write new complete id content todos =
    if is_text id then change id (λ t. record t { status = done }) todos else (todos, id_required)
todo_write new remove id content todos =
    if not (is_text id)
    then (todos, id_required)
    else if any (has_id id) todos
    then (select (λ t. not (has_id id t)) todos, written id)
    else (todos, not_found)
