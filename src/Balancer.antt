-- ===== src/Balancer.antt =====
-- The TCP load balancer of balancer/src.
pub mod Selection
pub mod Health
