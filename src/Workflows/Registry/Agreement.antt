-- ===== src/Workflows/Registry/Agreement.antt =====
-- The index and the manifests of a registry after a scan.
use auto_builder.Base.{
  String, Option, none, some, List, [], ◌∷◌, ◌≡◌, refl, ◌==◌, lookup, lookup-insert, eq_iff,
  Bool-cases, inl, inr,
}
use auto_builder.Workflows.Manifest.{WorkflowManifest}
use auto_builder.Workflows.Registry.{
  WorkflowEntry, Folders, Registry, entry_of, is_same_scope, enter, read_child, scan_children,
  scan_listed, scan_directory, scan, get_entry, get_manifest,
}

-- Both or neither are there; the entry is that of the manifest, under the manifest's name.
abbrev pub Agree : String → Option WorkflowEntry → Option WorkflowManifest → Type 0
Agree name none none = Unit
Agree name (some e) (some m) = (m.name ≡ name) × (e ≡ entry_of e.directory m)
Agree name _ _ = ⊥

abbrev pub IsAgreeing : Registry → Type 0
IsAgreeing r = (name : String) → Agree name (get_entry name r) (get_manifest name r)

module _ (folders : Folders) where
  enter-IsAgreeing :
      (directory child path : String) (p : Option WorkflowManifest) (r : Registry)
      → IsAgreeing r
      → IsAgreeing (enter folders directory child path p r)
  enter-IsAgreeing directory child path none r h = h
  enter-IsAgreeing directory child path (some m) r h =
      elim (Bool-cases (is_same_scope folders directory (lookup m.name r.index))) [
        | inl own ↦ rw own h
        | inr new ↦ rw new (λ name.
            rw
              (
                lookup-insert m.name name (entry_of child m) r.index,
                lookup-insert m.name name m r.manifests,
              )
              (elim (Bool-cases (m.name == name)) [
                | inl same ↦ rw same ((eq_iff m.name name).0 same, refl)
                | inr other ↦ rw other (h name)
              ]))
      ]

  read_child-IsAgreeing :
      (directory child : String) (path : Option String) (r : Registry)
      → IsAgreeing r
      → IsAgreeing (read_child folders directory child path r)
  read_child-IsAgreeing directory child none r h = h
  read_child-IsAgreeing directory child (some path) r h =
      enter-IsAgreeing directory child path (folders.parse path) r h

  scan_children-IsAgreeing :
      (directory : String) (listed : List String) (r : Registry)
      → IsAgreeing r
      → IsAgreeing (scan_children folders directory listed r)
  unfolding scan_children
  scan_children-IsAgreeing directory [] r h = h
  scan_children-IsAgreeing directory (child ∷ rest) r h =
      scan_children-IsAgreeing directory rest
        (read_child folders directory child (folders.manifest_path child) r)
        (read_child-IsAgreeing directory child (folders.manifest_path child) r h)

  scan_listed-IsAgreeing :
      (directory : String) (listed : Option (List String)) (r : Registry)
      → IsAgreeing r
      → IsAgreeing (scan_listed folders directory listed r)
  scan_listed-IsAgreeing directory none r h = h
  scan_listed-IsAgreeing directory (some listed) r h = scan_children-IsAgreeing directory listed r h

  scan_directory-IsAgreeing :
      (directory : Option String) (r : Registry)
      → IsAgreeing r
      → IsAgreeing (scan_directory folders directory r)
  scan_directory-IsAgreeing none r h = h
  scan_directory-IsAgreeing (some directory) r h =
      scan_listed-IsAgreeing directory (folders.children directory) r h

-- After a scan, whatever was indexed before, a name has an entry exactly if it has a manifest; the
-- manifest has that name, and the entry its description and triggers.
pub scan-IsAgreeing : (folders : Folders) (r : Registry) → IsAgreeing (scan folders r)
unfolding scan lookup
scan-IsAgreeing folders r =
    scan_directory-IsAgreeing folders r.user_workflows_dir _
      (scan_directory-IsAgreeing folders (some r.workflows_dir) _ (λ name. tt))
