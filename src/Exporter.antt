-- ===== src/Exporter.antt =====
-- k8s-yaml/fake-node-exporter/fake-node-exporter.py
pub mod Nodes
pub mod Arith
pub mod Declared
pub mod Smooth
pub mod State
pub mod Node
pub mod Update
mod Tests
