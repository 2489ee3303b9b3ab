-- ===== src/Links.antt =====
-- formatters.js: names and links.
pub mod Names
pub mod Anchors
pub mod Shown
pub mod Targets
