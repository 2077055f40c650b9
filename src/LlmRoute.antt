-- ===== src/LlmRoute.antt =====
-- pkg/gateway/llmroute: what an LLM route may be sent to, and which candidate a request gets.
pub mod Policy
pub mod Choose
pub mod Resolve
pub mod Validate
