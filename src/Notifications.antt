-- ===== src/Notifications.antt =====
-- src/modules/notifications and src/services/notificationEngine: the notifications of users.
pub mod Listing
pub mod Ordered
pub mod Paging
pub mod Unread
pub mod Taking
pub mod Counting
pub mod Writes
mod Tests
