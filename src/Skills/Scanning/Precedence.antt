-- ===== src/Skills/Scanning/Precedence.antt =====
-- Which skill a name stands for after a scan.
use auto_builder.Base.{
  String, Option, none, some, true, false, List, [], ◌∷◌, ◌≡◌, refl, ◌==◌, ◌∙◌, if◌then◌else◌,
  lookup, lookup-insert, All, eq_iff, Bool-cases, inl, inr,
}
use auto_builder.Skills.{SkillEntry}
use auto_builder.Skills.Scanning.{
  Disk, Library, with_path, is_same_scope, enter, scan_files, files_of, scan_directory, scan,
}

abbrev named_by : String → String → Option SkillEntry → Option SkillEntry → Option SkillEntry
named_by name path none rest = rest
named_by name path (some e) rest = if e.name == name then some (with_path path e) else rest

-- The first listed file whose skill has the name.
pub first_named : Disk → String → List String → Option SkillEntry
first_named disk name [] = none
first_named disk name (path ∷ paths) =
    named_by name path (disk.parse path) (first_named disk name paths)

abbrev pub or_else : Option SkillEntry → Option SkillEntry → Option SkillEntry
or_else none other = other
or_else (some e) other = some e

module _ (disk : Disk) (dir name : String) where
  -- What one directory makes of the name.
  abbrev overridden : Option SkillEntry → Option SkillEntry → Option SkillEntry
  overridden new old = if is_same_scope disk dir old then old else or_else new old

  enter-lookup :
      (path : String) (x : SkillEntry) (l : Library)
      → lookup name (enter disk dir path (some x) l).index ≡ (
          if x.name == name
          then if is_same_scope disk dir (lookup name l.index)
            then lookup name l.index
            else some (with_path path x)
          else lookup name l.index)
  enter-lookup path x l = elim (Bool-cases (is_same_scope disk dir (lookup x.name l.index))) [
    | inl own ↦ rw own (elim (Bool-cases (x.name == name)) [
      | inl same ↦
          let e = (eq_iff x.name name).0 same in
          let own' : is_same_scope disk dir (lookup name l.index) ≡ true = rw e at own in
          rw (same, own') refl
      | inr other ↦ rw other refl
    ])
    | inr new ↦
        rw (new, lookup-insert x.name name (with_path path x) l.index)
          (elim (Bool-cases (x.name == name)) [
            | inl same ↦
                let e = (eq_iff x.name name).0 same in
                let new' : is_same_scope disk dir (lookup name l.index) ≡ false = rw e at new in
                rw (same, new') refl
            | inr other ↦ rw other refl
          ])
  ]

  scan_step :
      (path : String) (p : Option SkillEntry) (paths : List String) (l : Library)
      → disk.is_inside path dir ≡ true
      → ((l' : Library)
          → lookup name (scan_files disk dir paths l').index
            ≡ overridden (first_named disk name paths) (lookup name l'.index))
      → lookup name (scan_files disk dir paths (enter disk dir path p l)).index
        ≡ overridden (named_by name path p (first_named disk name paths)) (lookup name l.index)
  scan_step path none paths l h ih = ih l
  scan_step path (some x) paths l h ih =
      ih (enter disk dir path (some x) l)
      ∙ rw (enter-lookup path x l)
          (elim (Bool-cases (is_same_scope disk dir (lookup name l.index))) [
            | inl own ↦ elim (Bool-cases (x.name == name)) [
              | inl same ↦ rw (own, same, own) refl
              | inr other ↦ rw (own, other, own) refl
            ]
            | inr new ↦ elim (Bool-cases (x.name == name)) [
              | inl same ↦ rw (new, same, h) refl
              | inr other ↦ rw (new, other, new) refl
            ]
          ])

  scan_files-lookup :
      (paths : List String) (l : Library)
      → All (λ path. disk.is_inside path dir ≡ true) paths
      → lookup name (scan_files disk dir paths l).index
        ≡ overridden (first_named disk name paths) (lookup name l.index)
  unfolding scan_files first_named
  scan_files-lookup [] l h = elim (Bool-cases (is_same_scope disk dir (lookup name l.index))) [
    | inl e ↦ rw e refl
    | inr e ↦ rw e refl
  ]
  scan_files-lookup (path ∷ paths) l h =
      scan_step path (disk.parse path) paths l h.0 (λ l'. scan_files-lookup paths l' h.1)

-- Skills that were found elsewhere are not the directory's own.
first_named-foreign :
    (disk : Disk) (dir name : String) (paths : List String)
    → All (λ path. disk.is_inside path dir ≡ false) paths
    → is_same_scope disk dir (first_named disk name paths) ≡ false
unfolding first_named
first_named-foreign disk dir name [] h = refl
first_named-foreign disk dir name (path ∷ paths) h =
    foreign (disk.parse path) (first_named-foreign disk dir name paths h.1)
  where
    foreign :
        (p : Option SkillEntry)
        → is_same_scope disk dir (first_named disk name paths) ≡ false
        → is_same_scope disk dir (named_by name path p (first_named disk name paths)) ≡ false
    foreign none ih = ih
    foreign (some x) ih = elim (Bool-cases (x.name == name)) [
      | inl same ↦ rw same h.0
      | inr other ↦ rw other ih
    ]

or_else-foreign :
    (disk : Disk) (dir : String) (a b : Option SkillEntry)
    → is_same_scope disk dir a ≡ false
    → is_same_scope disk dir b ≡ false
    → is_same_scope disk dir (or_else a b) ≡ false
or_else-foreign disk dir none b h k = k
or_else-foreign disk dir (some e) b h k = h

abbrev pub AllOutside : Disk → Option String → List String → Type 0
AllOutside disk none paths = Unit
AllOutside disk (some dir) paths = All (λ path. disk.is_inside path dir ≡ false) paths

-- What a directory lists is inside it, and is not inside a directory that is scanned later.
pub record IsSeparate (disk : Disk) (l : Library) : Type 0 where
  pub inside :
      (dir : String) → All (λ path. disk.is_inside path dir ≡ true) (files_of disk (some dir))
  pub global_workflow : AllOutside disk l.workflow_dir (files_of disk (some l.global_dir))
  pub global_project : AllOutside disk l.project_dir (files_of disk (some l.global_dir))
  pub workflow_project : AllOutside disk l.project_dir (files_of disk l.workflow_dir)

module _ (disk : Disk) (name : String) where
  abbrev named_in : Option String → Option SkillEntry
  named_in dir = first_named disk name (files_of disk dir)

  abbrev IsForeign : Option String → Option SkillEntry → Type 0
  IsForeign none old = Unit
  IsForeign (some dir) old = is_same_scope disk dir old ≡ false

  named_in-IsForeign :
      (dir other : Option String)
      → AllOutside disk dir (files_of disk other)
      → IsForeign dir (named_in other)
  named_in-IsForeign none other h = tt
  named_in-IsForeign (some dir) other h = first_named-foreign disk dir name (files_of disk other) h

  IsForeign-or_else :
      (dir : Option String) (a b : Option SkillEntry)
      → IsForeign dir a
      → IsForeign dir b
      → IsForeign dir (or_else a b)
  IsForeign-or_else none a b h k = tt
  IsForeign-or_else (some dir) a b h k = or_else-foreign disk dir a b h k

  scan_directory-lookup :
      (dir : Option String) (l : Library)
      → ((d : String) → All (λ path. disk.is_inside path d ≡ true) (files_of disk (some d)))
      → (old : Option SkillEntry) → lookup name l.index ≡ old
      → IsForeign dir old
      → lookup name (scan_directory disk dir l).index ≡ or_else (named_in dir) old
  unfolding first_named
  scan_directory-lookup none l inside old e h = e
  scan_directory-lookup (some dir) l inside old e h =
      scan_files-lookup disk dir name (files_of disk (some dir)) l (inside dir) ∙ rw (e, h) refl

or_else-none : (a : Option SkillEntry) → or_else a none ≡ a
or_else-none none = refl
or_else-none (some e) = refl

-- Where the three directories are apart, a scan gives a name to the first skill of that name in the
-- project's directory, or else in the workflow's, or else in the global one, and no skill has it if
-- none of them holds one; what was indexed before has no part in it.
pub scan-lookup :
    (disk : Disk) (l : Library) (name : String)
    → IsSeparate disk l
    → lookup name (scan disk l).index
      ≡ or_else (first_named disk name (files_of disk l.project_dir)) (
          or_else
            (first_named disk name (files_of disk l.workflow_dir))
            (first_named disk name (files_of disk (some l.global_dir))))
unfolding scan
scan-lookup disk l name s =
    let empty : Library = record l { index = []; file_mtimes = [] } in
    let global = first_named disk name (files_of disk (some l.global_dir)) in
    let workflow = first_named disk name (files_of disk l.workflow_dir) in
    let first = scan_directory-lookup disk name (some l.global_dir) empty s.inside none refl refl in
    let second =
      scan_directory-lookup disk name l.workflow_dir (scan_directory disk (some l.global_dir) empty)
        s.inside global (first ∙ or_else-none global)
        (named_in-IsForeign disk name l.workflow_dir (some l.global_dir) s.global_workflow) in
    scan_directory-lookup disk name l.project_dir
      (scan_directory disk l.workflow_dir (scan_directory disk (some l.global_dir) empty)) s.inside
      (or_else workflow global) second
      (IsForeign-or_else disk name l.project_dir workflow global
        (named_in-IsForeign disk name l.project_dir l.workflow_dir s.workflow_project)
        (named_in-IsForeign disk name l.project_dir (some l.global_dir) s.global_project))
