-- ===== src/Alert.antt =====
-- k8s-yaml/observe/alert/app.py: the Alertmanager webhook that merges alerts and sends Feishu cards.
pub mod Types
pub mod Silence
pub mod Card
pub mod Send
pub mod Receive
pub mod Flush
mod Tests
