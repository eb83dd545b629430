-- ===== src/Tests.antt =====
-- Runs of the model at concrete data, and each theorem with hypotheses at an input that meets them.
mod Fixtures
mod PolicyTests
mod PackTests
mod ApprovalTests
mod AuditTests
mod RuntimeTests
mod AuthTests
mod Wires
mod HttpTests
mod SdkTests
mod ServerTests
mod DatabaseTests
mod PostgresTests
