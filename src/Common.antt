-- ===== src/Common.antt =====
-- The shared data of common/: status texts, the configuration records, and the data model.
pub mod Const
pub mod ConfigMapType
pub mod DataModel
pub mod Dataconverter
pub mod Event
pub mod Outcome
pub mod Cjson
