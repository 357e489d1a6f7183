-- ===== src/Shop.antt =====
-- internal/web/shop_public.go, shop_admin.go, merchandising.go and server.go: what a product costs an
-- account, who may buy it, and the purchase.
pub mod Items
pub mod Pricing
pub mod Purchase
