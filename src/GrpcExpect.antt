-- ===== src/GrpcExpect.antt =====
-- Package testsuite/grpcexpect: the gRPC test suite.
pub mod Document
pub mod Call
pub mod Generate
pub mod Dial
pub mod Interface
pub mod Example
