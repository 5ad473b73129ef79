-- ===== src/Std.antt =====
-- Go's standard library, as far as the program relies on it: encoding/binary (`BigEndian`,
-- `LittleEndian`), hash/fnv (`Fnv`) and hash/crc32 (`Crc32`).
pub mod BigEndian
pub mod LittleEndian
pub mod Fnv
pub mod Crc32
