-- ===== src/Usage.antt =====
-- core/llm/usage.py: what a provider reports of the tokens of a request.
pub mod Payload
pub mod Normalizer
pub mod Accounting
pub mod Meter
pub mod Reserve
mod Examples
