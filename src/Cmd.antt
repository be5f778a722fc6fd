-- ===== src/Cmd.antt =====
-- krennic/cmd/krennic: the commands, each from its arguments to what it prints on its output.
pub mod Http
pub mod Json
pub mod Console
pub mod Team
pub mod Keys
pub mod Setup
pub mod Doctor
pub mod Typed
mod Samples
mod Examples
pub mod Verified
pub mod PauseSent
