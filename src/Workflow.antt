-- ===== src/Workflow.antt =====
-- The life of a deal: the diagram of its statuses, and every operation of
-- internal/modules/server and internal/modules/telegram_bot against it.
pub mod Diagram
pub mod Requests
