-- ===== src/Js.antt =====
-- What the three Node scripts use of their language: values, exceptions, and the world that they
-- talk to over HTTP.
pub mod Value
pub mod Outcome
pub mod Env
pub mod Http
pub mod Compare
pub mod Ending
