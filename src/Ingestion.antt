-- ===== src/Ingestion.antt =====
-- ingestion: the generator of synthetic events.
pub mod EventGenerator
pub mod Wire
pub mod Producer
pub mod Stream
