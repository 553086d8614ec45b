-- ===== src/Excel.antt =====
-- The filters saved in a workbook, as the reader of apps/web/app applies them.
pub mod Wildcard
