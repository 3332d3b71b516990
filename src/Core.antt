-- ===== src/Core.antt =====
-- lib/core: the data that the controllers keep, and the queue of background tasks.
pub mod Toolkit
pub mod TaskQueue
pub mod Values
pub mod Sample
pub mod Group
pub mod User
pub mod Participate
pub mod UserModel
pub mod Message
pub mod IdentifyingModel
