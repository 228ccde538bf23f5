-- ===== src/Db.antt =====
-- The database that the services share: rows, transactions and the statement helpers of
-- app/db/statements.py.
pub mod Rows
pub mod Tx
pub mod Statements
pub mod Tables
pub mod Laws
pub mod Single
pub mod Triples
