-- ===== src/Skills/Scanning.antt =====
-- SkillLibrary.scan and check_for_changes of skills/library.py. The file system is given: what
-- `sorted(directory.rglob("SKILL.md"))` lists (`none` for no directory), the files' times, whether a
-- file exists, and whether its path is relative to a directory. `parse` is the frontmatter's parser,
-- whose entry has the file's path.
pub mod Precedence
pub mod Changes
use auto_builder.Base.{
  ℕ, String, Option, none, some, Bool, true, false, List, [], ◌∷◌, ◌++◌, ◌==◌, map, not, any, all,
  ◌||◌, ◌&&◌, nat_eq, if◌then◌else◌, elem, Dict, insert, lookup,
}
use auto_builder.Skills.{SkillEntry}

pub record Disk : Type 0 where
  pub listing : String → Option (List String)
  pub mtime : String → ℕ
  pub exists : String → Bool
  pub is_inside : String → String → Bool
  pub parse : String → Option SkillEntry

pub record Library : Type 0 where
  pub global_dir : String
  pub workflow_dir : Option String
  pub project_dir : Option String
  pub index : Dict SkillEntry
  pub file_mtimes : Dict ℕ

abbrev pub with_path : String → SkillEntry → SkillEntry
with_path path e = record e { path = some path }

module _ (disk : Disk) where
  -- The entry of that name was found under the directory.
  abbrev pub is_same_scope : String → Option SkillEntry → Bool
  is_same_scope dir none = false
  is_same_scope dir (some e) = elim e.path [ none ↦ false | some path ↦ disk.is_inside path dir ]

  abbrev pub enter : String → String → Option SkillEntry → Library → Library
  enter dir path none l = l
  enter dir path (some e) l = if is_same_scope dir (lookup e.name l.index) then l else record l {
    index = insert e.name (with_path path e) l.index;
    file_mtimes = insert path (disk.mtime path) l.file_mtimes;
  }

  unfoldable pub scan_files : String → List String → Library → Library
  unfolding lookup insert
  scan_files dir [] l = l
  scan_files dir (path ∷ paths) l = scan_files dir paths (enter dir path (disk.parse path) l)

  -- Of a directory that is not given, or is none, there are no files.
  abbrev pub files_of : Option String → List String
  files_of none = []
  files_of (some dir) = elim (disk.listing dir) [ none ↦ [] | some paths ↦ paths ]

  abbrev pub scan_directory : Option String → Library → Library
  scan_directory none l = l
  scan_directory (some dir) l = scan_files dir (files_of (some dir)) l

  unfoldable pub scan : Library → Library
  unfolding scan_files
  scan l =
      let empty = record l { index = []; file_mtimes = [] } in
      scan_directory l.project_dir
        (scan_directory l.workflow_dir (scan_directory (some l.global_dir) empty))

  abbrev pub is_changed : String × ℕ → Bool
  is_changed (path, seen) = not (disk.exists path) || not (nat_eq (disk.mtime path) seen)

  abbrev pub current_files : Library → List String
  current_files l =
      files_of (some l.global_dir) ++ (files_of l.workflow_dir ++ files_of l.project_dir)

  abbrev pub same_set : List String → List String → Bool
  same_set xs ys = all (λ x. elem x ys) xs && all (λ y. elem y xs) ys

  unfoldable pub check_for_changes : Library → Bool
  unfolding any all elem
  check_for_changes l =
      any is_changed l.file_mtimes
      || not (same_set (current_files l) (map (λ (p : String × ℕ). p.0) l.file_mtimes))
