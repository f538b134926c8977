-- ===== src/Registry.antt =====
-- registry/: the definitions of the features in the database, their seeding and the queries.
pub mod Models
pub mod Memory
pub mod Rca
pub mod Service
pub mod Seeding
