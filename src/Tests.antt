-- ===== src/Tests.antt =====
-- Runs of the model on concrete inputs, and the theorems applied to them: an instance of the
-- kernel's helpers that answers as documented, and a module for each part.
pub mod Kernel
pub mod Strings
pub mod File
pub mod Mount
pub mod Network
pub mod Layout
pub mod Audit
pub mod Manager
pub mod Deployed
pub mod Dns
pub mod Log
