-- ===== src/Mage.antt =====
-- magefile.go: the build script. Printing and logging are left out.
pub mod System
pub mod Files
pub mod Dates
pub mod Users
pub mod Names
pub mod Images
pub mod Containers
pub mod Bins
pub mod Generate
pub mod Publish
