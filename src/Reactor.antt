-- ===== src/Reactor.antt =====
-- statApp/src/nlreact.cpp: the reactor, one worker thread that runs jobs and talks netlink.
pub mod State
pub mod Api
pub mod Worker
pub mod Step
pub mod Wakeup
pub mod Jobs
pub mod Cancel
pub mod Drop
pub mod Sequence
pub mod Transmit
pub mod Handlers
pub mod Descriptor
pub mod Build
mod Tests
