-- ===== src/Todo.antt =====
-- The todo API of api/src.
pub mod Index
