-- ===== src/Tar.antt =====
-- deb/tar: the writing half of the archive format, as this repository has changed it.
pub mod Strconv
pub mod Block
pub mod Header
pub mod Writer
pub mod Reading
mod Tests
mod PaxTests
