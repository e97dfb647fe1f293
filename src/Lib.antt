-- ===== src/Lib.antt =====
-- The header chain core of RSK One, a light node that follows Bitcoin and Rootstock headers.
--
-- The core keeps its state in a key-value database and changes it only inside transactions. The
-- Bitcoin side is a tree of chains over a spine of trusted headers: crates/core/src/store/btc.rs
-- holds the tables, crates/core/src/btc.rs the methods, and crates/core/src/btc/validation.rs the
-- header rules. A batch of headers is located, validated, stored with its cumulative work, and
-- may change the best chain and move the finalized checkpoint.
--
-- Files:
--
--   Prelude: the shared names, Boolean tests, lists, machine words, and Table, a table of the
--     database.
--   Bytes: big-endian integers, slices and writes into a buffer.
--   Bitcoin: the `bitcoin` package, which is not in the repository, as a record of its operations
--     over an opaque type of headers.
--   Rows: the records of the tables and their byte forms (`impl Value` in
--     crates/core/src/store.rs, store/btc.rs and store/rsk.rs).
--   Result: the errors of crates/core/src/error.rs.
--   Btc.Validation: crates/core/src/btc/validation.rs, and `median_time_past_at` of btc.rs.
--   Btc.Store: the tables and the methods of crates/core/src/store/btc.rs. Meta has the metadata,
--     Walk the walk to the fork that owns a height, Put the writes of a connect, Seed the spine;
--     Sound and Linked say what well-formed tables are.
--   Btc.Connect: `connect_headers` of crates/core/src/btc.rs. Run is its validation loop,
--     Finalize the checkpoint rule; the other children are proofs: Sound about the tree of forks
--     and the best one, Rows and Linked about the rows, Append about what the chains read as,
--     Floor and Settled about the finalized height.
--   Btc.Query: the reads of crates/core/src/btc.rs; the loop of `is_canonical_at` takes the best
--     fork's number plus one as fuel, that of `finalized_checkpoints` the number of periods.
--   Btc.Spine: crates/core/src/btc/checkpoints.rs.
--   Rsk.Consensus: the Rootstock rules that the program calls, as a record of operations.
--   Rsk.Forest, Rsk.Ghost: the tables of crates/core/src/store/rsk.rs and the walk of
--     `rsk_subtree_work`.
--   Rsk.Checkpoint, Rsk.Tree: crates/core/src/rsk/checkpoint.rs and crates/core/src/rsk.rs; the
--     children of Tree are proofs, where Stored says what the ancestry of the uncle rule reads.
--   P2p.Message: the messages, the errors of crates/btc-p2p/src/error.rs, and the stream of a
--     peer: what reads from it meet until it closes, frame by frame, which writes succeed, and
--     what was written. P2p.Session: crates/btc-p2p/src/session.rs and codec.rs. P2p.Seeds:
--     crates/btc-p2p/src/seeds.rs.
--   Node.Peers: crates/rsk/src/peers.rs over a world that gives each address a stream. Node.Sync:
--     `locator` and `next_alive` of crates/rsk/src/sync.rs. Node.Fetch, Node.Report, Node.Run:
--     its `prefetch`, `report` and `run`; the children of Run are proofs. Node.Anchor:
--     `plant_anchor` of crates/rsk/src/node.rs.
--   Node.Export: `export_checkpoints` of node.rs, over the `hex` package as a record of its
--     operations; Btc.Spine.Text has the lines and blanks of a text. Node.Handle: `sync`.
--     Node.Reach: the stores that seeding and connecting bring about, in Chains what their chains
--     read as, in Best what the queries give, in Succeeds when a batch connects, and in Final
--     what the finalized height promises. Node.Args: the arguments of crates/cli/src/main.rs.
--   Tests: the model on small inputs, and the theorems applied to them.
--
-- A number of `w` bits is a natural number, and its sums wrap where the source's do in a release
-- build. A 32-byte hash is the number that its bytes spell. A table is a list of rows with
-- distinct keys. A transaction is the tables themselves; a method that fails returns no tables,
-- as a dropped transaction leaves none. Errors of the database itself do not occur in the model.
--
-- The walk up the ancestors of a fork takes the fork's number plus one as its fuel. Parents have
-- smaller numbers, since a fork is numbered when it is created, so the fuel is enough.
--
-- The walk below a root has one round for the root and one for each stored edge; an edge is
-- pushed when its parent is first seen, so the fuel is enough on any tables.
--
-- A peer sends a list of frames and then closes. A loop that waits for a message takes the number
-- of these frames as its fuel, since each round reads one. The loop of `run` takes twice the
-- frames of all peers and the number of usable ones: each round reads a frame, drops a peer or
-- ends the run. A peer that stays open and silent, or sends without end, is not modelled: the
-- source's reads have no timeout (crates/btc-p2p/src/session.rs), and such a peer keeps the
-- source waiting.
--
-- Not modelled: opening the database, sockets and the encoding of messages, log lines and the
-- clock, and the parsing and output of the command line; and crates/rsk-consensus and
-- crates/rsk-p2p, which are copies of another project.
pub mod Prelude
pub mod Bytes
pub mod Bitcoin
pub mod Rows
pub mod Result
pub mod Btc
pub mod Node
pub mod P2p
pub mod Rsk
pub mod Tests
