-- ===== src/Database.antt =====
-- data/dbmethod: the clients of the databases. The client libraries are not part of the repository;
-- what their calls give is a parameter.
pub mod Env
pub mod Handler
pub mod Influxdb
pub mod Mysql
pub mod Redis
pub mod Tdengine
