-- ===== src/Db.antt =====
-- src/db: the tables of the database and the operations on them.
pub mod Table
pub mod Models
pub mod Users
pub mod Records
