-- ===== src/GitManifest.antt =====
-- src/git_manifest.cpp: the extensions that are git clones, with the urls of their remotes.
pub mod Config
pub mod Extensions
pub mod Lines
pub mod OriginUrl
