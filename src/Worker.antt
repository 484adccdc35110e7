-- ===== src/Worker.antt =====
-- Go/internal/worker: what the workers share.
pub mod Pool
pub mod Tasks
mod Tests
