-- ===== src/Table.antt =====
-- table/: the page of records and the handle of a table.
pub mod Format
pub mod Handle
pub mod Schema
