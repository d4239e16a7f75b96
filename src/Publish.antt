-- ===== src/Publish.antt =====
-- data/publish: the publishers that send the value of a property to a server.
pub mod Fields
pub mod Http
pub mod Mqtt
pub mod Otel
pub mod Publisher
