-- ===== src/PerfEval.antt =====
-- LLMOps/Benchmark/llm-perf-eval.py
pub mod Search
pub mod Args
pub mod Config
pub mod Manager
pub mod Mode1
pub mod Events
pub mod Mode2
pub mod Workbook
pub mod Writer
pub mod Values
pub mod Measures
pub mod Loading
pub mod Benchmark
pub mod Book
mod Tests
mod ManagerTests
mod Mode1Tests
mod CommandTests
mod Mode2Tests
mod WriterTests
mod LoadingTests
