-- ===== src/Utils.antt =====
-- Go/internal/utils: the helpers of the scan.
pub mod Network
mod Tests
