-- ===== src/HttpExpect.antt =====
-- Package testsuite/httpexpect: the HTTP test suite.
pub mod Query
pub mod Response
pub mod Documents
pub mod Request
pub mod Replace
pub mod Prepare
pub mod Run
pub mod Suite
pub mod Interface
pub mod Example
