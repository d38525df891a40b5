-- ===== src/RateTest.antt =====
-- DevOps/nginx/rate-limit/rate-test.py
pub mod Stats
pub mod Report
pub mod Requests
pub mod Percentile
pub mod Tallies
pub mod Tls
pub mod Main
mod Tests
