-- ===== src/Sockets.antt =====
-- src/websocket: the clients of the websocket server, their subscriptions and what is sent to them.
pub mod Hub
pub mod Prices
pub mod Portfolio
pub mod Messages
pub mod References
pub mod Clients
pub mod Counting
pub mod Steps
pub mod Flushing
pub mod Ownership
pub mod Owners
pub mod Reach
mod Tests
