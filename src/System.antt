-- ===== src/System.antt =====
-- The two programs together: a heartbeat of local/main.py, and what remote/main.py later says of it.
pub mod LastState
pub mod Programs
mod Tests
