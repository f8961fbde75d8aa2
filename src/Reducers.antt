-- ===== src/Reducers.antt =====
-- The reducers of the page's state (src/client/reducers).
pub mod Media
pub mod Messages
pub mod Notifications
pub mod WindowStates
pub mod Nicknames
mod Tests
pub mod Streams
pub mod Peers
