-- ===== src/Tests.antt =====
-- Concrete inputs: every theorem at an input where its hypotheses hold, and what the handlers answer.
mod Samples
mod Delivery
mod Shop
mod Billing
mod Cbor
mod Passkeys
mod Site
mod Rewards
mod Accounts
mod Console
mod Agent
