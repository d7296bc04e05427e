-- ===== src/Workflows.antt =====
-- Workflows: the stages of a manifest, validators, completion gates and completion reports
-- (workflows/manifest.py, stages.py, validators.py, completion.py and registry.py).
pub mod Manifest
pub mod Stages
pub mod Dependencies
pub mod Validators
pub mod Gates
pub mod Reports
pub mod Registry
