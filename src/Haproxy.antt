-- ===== src/Haproxy.antt =====
-- internal/haproxy: the health of the load balancer's backends, from the pods' metrics to the
-- events that wake the frontend controller.
pub mod HealthCache
pub mod HealthManager
pub mod ConfigBuilder
pub mod Monitor
mod Tests
