-- ===== src/Samples/Requests.antt =====
-- A sample folder of workflows: two that share a keyword, one of them with an explicit name after it,
-- and a file that does not parse.
use auto_builder.Base.{String, none, some, List, [], ◌∷◌, ◌↔◌, ◌⊎◌, if◌then◌else◌, ◌==◌, IsIn}
use auto_builder.Model.Values.{Fields, field, text, end, list, cons, nil}
use auto_builder.Workflows.Manifest.{WorkflowManifest}
use auto_builder.Workflows.Registry.{Folders, Registry, entry_of, entries, scan, match_request}
use auto_builder.Workflows.Registry.Agreement.{IsAgreeing, scan-IsAgreeing}
use auto_builder.Workflows.Registry.Requests.{IsNamed, IsKeyed, IsUnnamed, match_request_iff}

abbrev keyword : Fields
keyword = field "keywords" (list (cons (text "code") nil)) end

abbrev explicit : Fields
explicit = field "explicit" (text "code") end

abbrev workflow : String → List Fields → WorkflowManifest
workflow name triggers = record {
  name = name;
  description = "writes code";
  stages = [];
  validators = [];
  layers = none;
  triggers = triggers;
}

abbrev folders : Folders
folders = record {
  children = λ d. if d == "built_in" then some ("a" ∷ "b" ∷ "c" ∷ []) else none;
  manifest_path = λ child. some child;
  mtime = λ path. 0;
  is_inside = λ child d. d == "built_in";
  parse = λ path.
      if path == "a"
      then some (workflow "a" (keyword ∷ explicit ∷ []))
      else if path == "b"
      then some (workflow "b" (keyword ∷ []))
      else none;
}

abbrev registry : Registry
registry = record {
  workflows_dir = "built_in";
  user_workflows_dir = some "user";
  index = [];
  manifests = [];
  file_mtimes = [];
}

scan-IsAgreeing_example : IsAgreeing (scan folders registry)
scan-IsAgreeing_example = scan-IsAgreeing folders registry

match_request_iff_example :
    IsIn
      (entry_of "a" (workflow "a" (keyword ∷ explicit ∷ [])))
      (match_request (λ s. s) (λ s t. s == t) "code" (scan folders registry))
    ↔ (IsIn
          (entry_of "a" (workflow "a" (keyword ∷ explicit ∷ [])))
          (entries (scan folders registry))
        × (IsNamed (λ s. s) (λ s t. s == t) "code" (keyword ∷ explicit ∷ [])
            ⊎ (IsUnnamed (λ s. s) (λ s t. s == t) "code" (entries (scan folders registry))
                × IsKeyed (λ s. s) (λ s t. s == t) "code" (keyword ∷ explicit ∷ []))))
match_request_iff_example =
    match_request_iff (λ s. s) (λ s t. s == t) "code" (scan folders registry)
      (entry_of "a" (workflow "a" (keyword ∷ explicit ∷ [])))
