-- ===== src/Notifications/Writes.antt =====
-- The writes of src/modules/notifications/service.ts and NotificationProcessor.ts and the number of
-- unread notifications in Redis.
