-- ===== src/Skills/Scanning/Changes.antt =====
-- What check_for_changes compares with: the files whose skills a scan has entered, and no others.
use auto_builder.Base.{
  ℕ, String, Option, none, some, true, false, List, [], ◌∷◌, ◌≡◌, refl, ◌==◌, map, all, elem, Dict,
  insert, lookup, eq_iff, arith, ap, ◌∙◌, sym, Bool-cases, inl, inr,
}
use auto_builder.Skills.{SkillEntry}
use auto_builder.Skills.Scanning.{
  Disk, Library, is_same_scope, enter, scan_files, files_of, scan_directory, scan, current_files,
  check_for_changes,
}

abbrev recorded : Library → List String
recorded l = map (λ (p : String × ℕ). p.0) l.file_mtimes

elem-insert :
    (path : String) (t : ℕ) (d : Dict ℕ) (x : String)
    → path == x ≡ false
    → elem x (map (λ (p : String × ℕ). p.0) (insert path t d))
      ≡ elem x (map (λ (p : String × ℕ). p.0) d)
unfolding elem insert
elem-insert path t [] x other = ground arith
elem-insert path t ((k, v) ∷ d) x other =
    ground (arith, elem-insert path t d x other, eq_iff k path, eq_iff path x, eq_iff k x)

module _ (disk : Disk) (path : String) (unparsed : disk.parse path ≡ none) where
  enter-recorded :
      (dir p : String) (o : Option SkillEntry) (l : Library)
      → disk.parse p ≡ o
      → elem path (recorded (enter disk dir p o l)) ≡ elem path (recorded l)
  enter-recorded dir p none l e = refl
  enter-recorded dir p (some x) l e =
      elim (Bool-cases (is_same_scope disk dir (lookup x.name l.index))) [
        | inl own ↦ rw own refl
        | inr new ↦ rw new (
            elem-insert p (disk.mtime p) l.file_mtimes path (elim (Bool-cases (p == path)) [
              | inl same ↦
                  let at_path = ap disk.parse ((eq_iff p path).0 same) in
                  let clash : none ≡ some x = sym unparsed ∙ sym at_path ∙ e in cc
              | inr other ↦ other
            ]))
      ]

  scan_files-recorded :
      (dir : String) (paths : List String) (l : Library)
      → elem path (recorded (scan_files disk dir paths l)) ≡ elem path (recorded l)
  unfolding scan_files
  scan_files-recorded dir [] l = refl
  scan_files-recorded dir (p ∷ paths) l =
      scan_files-recorded dir paths (enter disk dir p (disk.parse p) l)
      ∙ enter-recorded dir p (disk.parse p) l refl

  scan_directory-recorded :
      (dir : Option String) (l : Library)
      → elem path (recorded (scan_directory disk dir l)) ≡ elem path (recorded l)
  scan_directory-recorded none l = refl
  scan_directory-recorded (some dir) l = scan_files-recorded dir (files_of disk (some dir)) l

  scan-recorded : (l : Library) → elem path (recorded (scan disk l)) ≡ false
  unfolding scan elem
  scan-recorded l =
      scan_directory-recorded l.project_dir _
      ∙ (scan_directory-recorded l.workflow_dir _
          ∙ (scan_directory-recorded (some l.global_dir)
              (record l { index = []; file_mtimes = [] })))

module _ (disk later : Disk) where
  enter-current_files :
      (dir p : String) (o : Option SkillEntry) (l : Library)
      → current_files later (enter disk dir p o l) ≡ current_files later l
  enter-current_files dir p none l = refl
  enter-current_files dir p (some x) l =
      elim (Bool-cases (is_same_scope disk dir (lookup x.name l.index))) [
        | inl own ↦ rw own refl
        | inr new ↦ rw new refl
      ]

  scan_files-current_files :
      (dir : String) (paths : List String) (l : Library)
      → current_files later (scan_files disk dir paths l) ≡ current_files later l
  unfolding scan_files
  scan_files-current_files dir [] l = refl
  scan_files-current_files dir (p ∷ paths) l =
      scan_files-current_files dir paths (enter disk dir p (disk.parse p) l)
      ∙ enter-current_files dir p (disk.parse p) l

  scan_directory-current_files :
      (dir : Option String) (l : Library)
      → current_files later (scan_directory disk dir l) ≡ current_files later l
  scan_directory-current_files none l = refl
  scan_directory-current_files (some dir) l =
      scan_files-current_files dir (files_of disk (some dir)) l

  scan-current_files : (l : Library) → current_files later (scan disk l) ≡ current_files later l
  unfolding scan
  scan-current_files l =
      scan_directory-current_files l.project_dir _
      ∙ (scan_directory-current_files l.workflow_dir _
          ∙ scan_directory-current_files (some l.global_dir)
              (record l { index = []; file_mtimes = [] }))

missed :
    (x : String) (xs ys : List String)
    → elem x xs ≡ true
    → elem x ys ≡ false
    → all (λ z. elem z ys) xs ≡ false
unfolding elem all
missed x [] ys h k = absurd (ground arith)
missed x (z ∷ xs) ys h k = ground (arith, missed x xs ys, eq_iff z x)

-- A file that did not parse when the library was scanned makes every later check report a change, however
-- the disk has changed since, as long as a directory of the library lists it.
pub check_for_changes-unparsed :
    (disk later : Disk) (l : Library) (path : String)
    → disk.parse path ≡ none
    → elem path (current_files later l) ≡ true
    → check_for_changes later (scan disk l) ≡ true
unfolding check_for_changes
check_for_changes-unparsed disk later l path unparsed listed =
    let there : elem path (current_files later (scan disk l)) ≡ true =
      ap (elem path) (scan-current_files disk later l) ∙ listed in
    let differs =
      missed path (current_files later (scan disk l)) (recorded (scan disk l)) there
        (scan-recorded disk path unparsed l) in
    ground (arith, differs)
