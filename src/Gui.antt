-- ===== src/Gui.antt =====
-- The page of a peer: gui/web/assets/scripts/main.js, a controller for each part of the page.
pub mod Page
pub mod Info
pub mod Messaging
pub mod Routing
pub mod Sharing
pub mod Laws
pub mod Ends
pub mod Failures
