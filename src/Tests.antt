-- ===== src/Tests.antt =====
-- The development on concrete data: a volume that satisfies the laws of LittleFs, test data, and one
-- instance of each theorem that has hypotheses.
pub mod Data
pub mod Volume
mod Files
mod Device
pub mod Screens
pub mod Server
pub mod Taps
mod Lists
mod Runs
