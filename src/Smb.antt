-- ===== src/Smb.antt =====
-- Go/internal/smb: the binary formats that the collector decodes.
pub mod Bits
pub mod Bytes
pub mod Sid
pub mod Descriptor
pub mod Flags
pub mod AccessMask
mod Tests
