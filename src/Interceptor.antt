-- ===== src/Interceptor.antt =====
-- The control point between agents and tools: src/rygnal/interceptor.py, with the approval workflow
-- of approval.py and the executor of tool_executor.py.
pub mod Workflow
pub mod Execution
pub mod Control
pub mod Safety
pub mod Assembly
mod Tests
