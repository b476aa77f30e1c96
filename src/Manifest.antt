-- ===== src/Manifest.antt =====
-- `crate::manifest`: the parser of `MUSTS.yml` (manifest/parser.rs). serde_yaml and globset are parameters.
pub mod Yaml
pub mod Keys
pub mod Parser
