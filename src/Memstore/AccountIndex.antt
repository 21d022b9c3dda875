-- ===== src/Memstore/AccountIndex.antt =====
-- memstore/memstore.go: the indexes of the accounts agree with the accounts.
pub mod Inv
pub mod Create
pub mod Update
pub mod Unique
