-- ===== src/Web.antt =====
-- Server/Plugins/Web: the page on which the log of the server is read, and the colors of its items.
pub mod Page
pub mod Filters
pub mod App
pub mod Session
pub mod Colors
pub mod Dump
pub mod Items
pub mod Components
mod Tests
