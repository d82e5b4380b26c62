-- ===== src/Raze.antt =====
-- src/raze_update.cpp: releases, manifests, the plan of an update and the check of a package.
pub mod Types
pub mod Releases
pub mod Manifests
pub mod Plan
pub mod Verify
pub mod Checks
pub mod PlanLaws
pub mod Planning
pub mod ManifestLaws
