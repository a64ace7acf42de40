-- ===== src/Approval.antt =====
-- The approval lifecycle: src/rygnal/approval_state.py, approval_authorization.py and the
-- two queues of approval_queue.py.
pub mod State
pub mod Authorization
pub mod Duties
pub mod Receipt
pub mod Queue
pub mod Lifecycle
pub mod Durable
pub mod Once
mod Tests
