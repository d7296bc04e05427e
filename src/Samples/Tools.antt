-- ===== src/Samples/Tools.antt =====
-- A sample call of todo_write.
use auto_builder.Base.{String, List, [], ◌∷◌, ◌≡◌, ◌⊎◌}
use auto_builder.Tools.Todos.{Todo, pending, TodoAction, written, todo_write}
use auto_builder.Tools.Todos.Effects.{item, effect, IsRefused, todo_write-effect}

abbrev todos : List Todo
todos = record { id = "1"; content = "write"; status = pending } ∷ []

todo_write-effect_example :
    let (after, reply) = todo_write "2" TodoAction.complete "1" "" todos in
    (((written_id : String) × (reply ≡ written written_id))
      × ((other : String)
          → item other after ≡ effect "2" TodoAction.complete "1" "" other (item other todos)))
    ⊎ ((after ≡ todos) × IsRefused TodoAction.complete "1" "" todos reply)
todo_write-effect_example = todo_write-effect "2" TodoAction.complete "1" "" todos
