-- ===== src/Examples.antt =====
-- Concrete runs of the models: tests by evaluation, and each theorem at an input that meets its
-- hypotheses.
pub mod Data
pub mod Services
pub mod Commands
pub mod Shadows
mod Rounds
pub mod Clients
pub mod Parcel
mod Binders
pub mod Javas
mod Journeys
mod Threads
mod Waits
mod Histories
mod PushRaces
mod LockRuns
mod Heaps
