-- ===== src/Billing.antt =====
-- internal/web/gift_codes.go and billing.go: credits that come in by gift codes and payments, and go
-- out again when a payment is reversed.
pub mod Gifts
pub mod Reversal
pub mod Checkout
