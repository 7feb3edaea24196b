-- ===== src/Framework.antt =====
-- framework/sdk/rust/src: the layer of hosts and plugins over the kernel.
pub mod Error
pub mod Foreign
pub mod Presentation
pub mod Step
pub mod Outside
pub mod Host
pub mod Reach
pub mod Memo
pub mod Storage
pub mod Tables
pub mod Policy
pub mod Cut
pub mod Seeds
mod Examples
