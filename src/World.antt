-- ===== src/World.antt =====
-- Client/Assets/Scenes/WorldScene/WorldScript.js: class World, its entities and its timers.
pub mod Timer
pub mod Entities
pub mod Destroying
pub mod Creating
pub mod Remote
pub mod Session
pub mod Controls
pub mod Contents
pub mod View
pub mod Frame
pub mod Reachable
mod Tests
