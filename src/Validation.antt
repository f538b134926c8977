-- ===== src/Validation.antt =====
-- validation: the comparison of the offline and the online store, and its severity.
pub mod Consistency
pub mod Psi
pub mod Skew
