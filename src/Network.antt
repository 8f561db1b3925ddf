-- ===== src/Network.antt =====
-- Client/Assets/Standard Assets/Network.js
pub mod Runtime
pub mod Buffer
pub mod Structs
pub mod Send
pub mod Receive
pub mod Client
pub mod Tests
