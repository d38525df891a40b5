-- ===== src/Dashboard.antt =====
-- LLMOps/monitor/grafana-dashboards/merge-dashboards.py
pub mod Panels
pub mod Layout
pub mod Json
pub mod Vars
pub mod Merge
mod Tests
