-- ===== src/Layout.antt =====
-- What is proved of the layout that CType.antt computes: members lie inside their objects
-- (Bounds).
pub mod Bounds
