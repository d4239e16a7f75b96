-- ===== src/Parse.antt =====
-- util/parse/: the texts and records that are taken from messages.
pub mod ResourceId
pub mod MsgTwin
pub mod TwinConv
pub mod FromGrpc
