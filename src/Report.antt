-- ===== src/Report.antt =====
-- The pieces of a report: number formatting, overhead compensation, the rows and the whole text.
pub mod Text
pub mod Number
pub mod Overhead
pub mod Host
pub mod Row
pub mod Whole
pub mod Columns
pub mod Figures
