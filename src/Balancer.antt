-- ===== src/Balancer.antt =====
-- internal/balancer: backends, the pool, and the strategies that select a backend from it.
pub mod Backend
pub mod Pool
pub mod RoundRobin
pub mod ConsistentHash
pub mod Weighted
pub mod LeastConnections
pub mod Strategy
pub mod Total
