-- ===== src/Scripts.antt =====
-- Server/Plugins/Script: the scripts that the server runs for an entity.
pub mod Json
pub mod Mixins
pub mod Xml
pub mod Appearance
pub mod Inventory
mod Tests
pub mod Documents
