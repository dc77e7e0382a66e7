-- ===== src/Otp.antt =====
-- The `otp` crate: one-time-pad file encryption with a pad for each message, and a ledger of used pads.
pub mod Error
pub mod Role
pub mod Size
pub mod Hex
pub mod PadHeader
pub mod EnvelopeHeader
pub mod World
pub mod Files
pub mod Ledger
pub mod Chunks
pub mod Pad
pub mod Create
pub mod Encrypt
pub mod Decrypt
pub mod Reading
pub mod Growth
pub mod Kept
pub mod Spending
pub mod Content
pub mod StateDirectory
pub mod Commands
pub mod SizeText
mod Sample
mod Examples
