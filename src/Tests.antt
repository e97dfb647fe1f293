-- ===== src/Tests.antt =====
-- Tests of the model on small inputs, and the theorems applied to them. They stand apart from the
-- library, which does not use them.
mod Sample
mod RowsTest
mod ChainTest
mod ConnectTest
mod RskTest
mod SpineTest
mod NodeTest
mod PeersTest
mod RunTest
mod ExportTest
mod ReachTest
mod FinalTest
