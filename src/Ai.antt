-- ===== src/Ai.antt =====
-- krennic/internal/ai: the two-stage analysis over interchangeable providers.
pub mod Prompts
pub mod PromptSize
pub mod Types
pub mod Rules
pub mod Gateway
pub mod Routing
pub mod Analysis
mod Examples
mod PromptExamples
pub mod Pricing
pub mod Providers
mod ProviderExamples
