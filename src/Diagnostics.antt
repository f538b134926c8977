-- ===== src/Diagnostics.antt =====
-- diagnostics/: the root-cause analysis of a drifting feature.
pub mod Schemas
pub mod ContextBuilder
pub mod Rules
pub mod PromptTemplates
pub mod RcaEngine
