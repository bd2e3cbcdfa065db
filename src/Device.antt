-- ===== src/Device.antt =====
-- statApp/src/devstat.cpp: device support, which copies a value of a table into a record.
mod Tests
pub mod Record
pub mod Read
pub mod Scan
pub mod Link
pub mod Laws
pub mod Log
pub mod View
pub mod Support
