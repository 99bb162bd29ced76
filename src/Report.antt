-- ===== src/Report.antt =====
-- internal/report: the tool that reports which specs the suites hold.
pub mod Tree
pub mod Cache
pub mod Command
pub mod Template
pub mod Sum
pub mod Main
mod Tests
