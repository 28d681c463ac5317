-- ===== src/Sql.antt =====
-- src/sql_engine.c: the custom SQL engine, over the pager and the B-tree.
pub mod Token
pub mod Like
pub mod Cells
pub mod Literal
pub mod Parse
pub mod Rows
pub mod RowPages
pub mod Where
mod Tests
