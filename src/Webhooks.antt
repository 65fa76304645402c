-- ===== src/Webhooks.antt =====
-- Webhook events and their delivery (app/utils/webhooks.py, app/tasks/webhook_tasks.py).
pub mod Models
pub mod Delivery
pub mod Queue
pub mod Attempts
pub mod Ends
