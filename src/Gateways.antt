-- ===== src/Gateways.antt =====
-- The adapters of the gateways, app/infra/interfaces.
pub mod MercadoPago
