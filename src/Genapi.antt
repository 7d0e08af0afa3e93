-- ===== src/Genapi.antt =====
-- pkg/genapi: the generator of the API's documentation. A text here is the list of its code points;
-- the sources and comments that it reads are valid UTF-8, and all that it does to a text acts on
-- code points.
pub mod Texts
pub mod Tags
pub mod Markdown
pub mod Idents
pub mod Packages
pub mod Types
pub mod Print
pub mod Options
pub mod Docs
pub mod Fields
pub mod Constants
pub mod Load
