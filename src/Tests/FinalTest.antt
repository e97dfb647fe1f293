-- ===== src/Tests/FinalTest.antt =====
-- A fork that leaves the chain above the finalized height, and one that was there before.
use rsk.Prelude.{drop, ◌*◌, ◌^◌, ◌≡◌, refl, some, List, [], ◌∷◌, arith}
use rsk.Prelude.Table.{get, insert}
use rsk.Bitcoin.{regtest}
use rsk.Result.{Result, ok, err}
use rsk.Rows.Fork.{ForkMeta}
use rsk.Rows.Meta.{as_u64, as_text}
use rsk.Btc.Store.Meta.{
  Chain, fork_meta, best_fork, finalized, set_finalized, set_best_fork, meta_u64, fork_tip, locate,
  network, set_network,
}
use rsk.Btc.Store.Walk.{work_at, fork_chainwork, header_at, row_at, owner_fork, owner_loop}
use rsk.Btc.Validation.{median_time_past_at, enforces_difficulty, expected_bits}
use rsk.Btc.Connect.Run.{
  validate_run, check_headers, check_header, check_difficulty, check_time, header_in,
}
use rsk.Btc.Connect.Finalize.{finalize_in_txn, finalize_at}
use rsk.Btc.Connect.{
  connect_headers, Target, ConnectOutcome, network_ok, known_prefix, parent_hash, connect_run,
  connect_behind, choose_target, store_run, entries_of, select_best, tip_of, above_finalized,
}
use rsk.Btc.Connect.Sound.{Fits}
use rsk.Btc.Connect.Settled.{LeaveAbove}
use rsk.Btc.Store.Put.{next_fork_id, put_headers, put_entries, put_entry, set_tip, create_fork}
use rsk.Btc.Store.Seed.{
  seed_checkpoints, seed_sorted, sort_by_height, insert_by_height, is_contiguous, put_spine,
  put_root, put_checkpoint, boundary_work,
}
use rsk.Node.Anchor.{seed_core}
use rsk.Btc.Query.Best.{IsBestChain}
use rsk.Node.Reach.{Reached, connects}
use rsk.Node.Reach.Linked.{anchor_of}
use rsk.Node.Reach.Succeeds.{connect_headers-connects}
use rsk.Btc.Connect.Run.Valid.{ValidRun, check_headers_iff_valid}
use rsk.Node.Reach.Best.{Reached-IsBestChain}
use rsk.Node.Reach.Chains.{Later, same, grows}
use rsk.Node.Reach.Final.{Later-final}
use rsk.Tests.Sample.{ToyHeader, toy}
use rsk.Tests.ConnectTest.{header, nothing, two}
use rsk.Tests.ReachTest.{
  started, started_reached, started-anchor, started-Fits, grown, grown-Reached, first_row,
}

abbrev value_of {ℓ} : {A : Type ℓ} → Result A → A → A
value_of (ok a) d = a
value_of (err x) d = d

-- A heavier block behind genesis.
abbrev rival : List ToyHeader
rival = header 1 7 9 ∷ []

abbrev forked : ConnectOutcome × Chain ToyHeader
forked = value_of (connect_headers toy regtest grown.1 rival) (nothing, grown.1)

forked-ok : connect_headers toy regtest grown.1 rival ≡ ok forked
unfolding seed_core seed_checkpoints seed_sorted sort_by_height insert_by_height is_contiguous
    put_spine put_root put_checkpoint boundary_work set_network connect_headers network_ok
    known_prefix parent_hash connect_run connect_behind choose_target validate_run check_headers
    check_header check_difficulty check_time header_in median_time_past_at enforces_difficulty
    expected_bits work_at row_at owner_fork owner_loop fork_meta get store_run put_headers
    put_entries put_entry set_tip insert entries_of select_best fork_chainwork best_fork meta_u64
    finalize_in_txn finalize_at fork_tip locate tip_of header_at network as_u64 as_text
    above_finalized finalized create_fork next_fork_id set_best_fork
forked-ok = refl

grown-Fits : Fits toy grown.1 rival
unfolding seed_core seed_checkpoints seed_sorted sort_by_height insert_by_height is_contiguous
    put_spine put_root put_checkpoint boundary_work set_network connect_headers network_ok
    known_prefix parent_hash connect_run connect_behind choose_target validate_run check_headers
    check_header check_difficulty check_time header_in median_time_past_at enforces_difficulty
    expected_bits work_at row_at owner_fork owner_loop fork_meta get store_run put_headers
    put_entries put_entry set_tip insert entries_of select_best fork_chainwork best_fork meta_u64
    finalize_in_txn finalize_at fork_tip locate tip_of header_at network as_u64 as_text
    above_finalized finalized create_fork next_fork_id set_best_fork
grown-Fits = record {
  heights = λ hash f h e. ground arith;
  works = λ f h row e. ground arith;
  numbers = omega arith;
}

grown-LeaveAbove : LeaveAbove grown.1 0
unfolding seed_core seed_checkpoints seed_sorted sort_by_height insert_by_height is_contiguous
    put_spine put_root put_checkpoint boundary_work set_network connect_headers network_ok
    known_prefix parent_hash connect_run connect_behind choose_target validate_run check_headers
    check_header check_difficulty check_time header_in median_time_past_at enforces_difficulty
    expected_bits work_at row_at owner_fork owner_loop fork_meta get store_run put_headers
    put_entries put_entry set_tip insert entries_of select_best fork_chainwork best_fork meta_u64
    finalize_in_txn finalize_at fork_tip locate tip_of header_at network as_u64 as_text
    above_finalized finalized create_fork next_fork_id set_best_fork
grown-LeaveAbove f m there other = ground arith

abbrev fork_1 : ForkMeta
fork_1 = record {
  forkpoint = 1;
  parent = some 0;
  forkpoint_hash = 17;
  tip_height = 1;
  tip_hash = 17;
  tip_work = 17 * 2 ^ 192;
}

fork_1-forked : fork_meta forked.1 1 ≡ some fork_1
unfolding seed_core seed_checkpoints seed_sorted sort_by_height insert_by_height is_contiguous
    put_spine put_root put_checkpoint boundary_work set_network connect_headers network_ok
    known_prefix parent_hash connect_run connect_behind choose_target validate_run check_headers
    check_header check_difficulty check_time header_in median_time_past_at enforces_difficulty
    expected_bits work_at row_at owner_fork owner_loop fork_meta get store_run put_headers
    put_entries put_entry set_tip insert entries_of select_best fork_chainwork best_fork meta_u64
    finalize_in_txn finalize_at fork_tip locate tip_of header_at network as_u64 as_text
    above_finalized finalized create_fork next_fork_id set_best_fork
fork_1-forked = refl

grown-finalized : finalized grown.1 ≡ some 0
unfolding seed_core seed_checkpoints seed_sorted sort_by_height insert_by_height is_contiguous
    put_spine put_root put_checkpoint boundary_work set_network connect_headers network_ok
    known_prefix parent_hash connect_run connect_behind choose_target validate_run check_headers
    check_header check_difficulty check_time header_in median_time_past_at enforces_difficulty
    expected_bits work_at row_at owner_fork owner_loop fork_meta get store_run put_headers
    put_entries put_entry set_tip insert entries_of select_best fork_chainwork best_fork meta_u64
    finalize_in_txn finalize_at fork_tip locate tip_of header_at network as_u64 as_text
    above_finalized finalized create_fork next_fork_id set_best_fork
grown-finalized = refl

grown_read : row_at grown.1 0 0 ≡ some first_row
unfolding seed_core seed_checkpoints seed_sorted sort_by_height insert_by_height is_contiguous
    put_spine put_root put_checkpoint boundary_work set_network connect_headers network_ok
    known_prefix parent_hash connect_run connect_behind choose_target validate_run check_headers
    check_header check_difficulty check_time header_in median_time_past_at enforces_difficulty
    expected_bits work_at row_at owner_fork owner_loop fork_meta get store_run put_headers
    put_entries put_entry set_tip insert entries_of select_best fork_chainwork best_fork meta_u64
    finalize_in_txn finalize_at fork_tip locate tip_of header_at network as_u64 as_text
    above_finalized finalized create_fork next_fork_id set_best_fork
grown_read = refl

forked-Later : Later toy regtest grown.1 forked.1
forked-Later = grows grown.1 forked.1 rival forked.0 same grown-Fits forked-ok

Later-final_example : row_at forked.1 1 0 ≡ some first_row
Later-final_example =
    Later-final toy regtest grown.1 forked.1 0 1 0 fork_1 first_row grown-Reached grown-finalized
      grown-LeaveAbove forked-Later (omega arith) grown_read fork_1-forked

forked-Reached : Reached toy regtest forked.1
forked-Reached = connects grown.1 forked.1 rival forked.0 grown-Reached grown-Fits forked-ok

Reached-IsBestChain_example : IsBestChain toy (anchor_of toy regtest forked-Reached) forked.1
Reached-IsBestChain_example = Reached-IsBestChain toy regtest forked.1 forked-Reached

abbrev on_root : Target ToyHeader
on_root = record { fork = 0; forkpoint = 1; txn = started }

started-network : network_ok toy regtest started ≡ ok tt
unfolding seed_core seed_checkpoints seed_sorted sort_by_height insert_by_height is_contiguous
    put_spine put_root put_checkpoint boundary_work set_network connect_headers network_ok
    known_prefix parent_hash connect_run connect_behind choose_target validate_run check_headers
    check_header check_difficulty check_time header_in median_time_past_at enforces_difficulty
    expected_bits work_at row_at owner_fork owner_loop fork_meta get store_run put_headers
    put_entries put_entry set_tip insert entries_of select_best fork_chainwork best_fork meta_u64
    finalize_in_txn finalize_at fork_tip locate tip_of header_at network as_u64 as_text
    above_finalized finalized create_fork next_fork_id set_best_fork
started-network = refl

two_new : drop (known_prefix toy started two) two ≡ two
unfolding seed_core seed_checkpoints seed_sorted sort_by_height insert_by_height is_contiguous
    put_spine put_root put_checkpoint boundary_work set_network connect_headers network_ok
    known_prefix parent_hash connect_run connect_behind choose_target validate_run check_headers
    check_header check_difficulty check_time header_in median_time_past_at enforces_difficulty
    expected_bits work_at row_at owner_fork owner_loop fork_meta get store_run put_headers
    put_entries put_entry set_tip insert entries_of select_best fork_chainwork best_fork meta_u64
    finalize_in_txn finalize_at fork_tip locate tip_of header_at network as_u64 as_text
    above_finalized finalized create_fork next_fork_id set_best_fork
two_new = refl

two_located :
    locate started (parent_hash toy two (known_prefix toy started two) (header 1 2 3)) ≡ some (0, 0)
unfolding seed_core seed_checkpoints seed_sorted sort_by_height insert_by_height is_contiguous
    put_spine put_root put_checkpoint boundary_work set_network connect_headers network_ok
    known_prefix parent_hash connect_run connect_behind choose_target validate_run check_headers
    check_header check_difficulty check_time header_in median_time_past_at enforces_difficulty
    expected_bits work_at row_at owner_fork owner_loop fork_meta get store_run put_headers
    put_entries put_entry set_tip insert entries_of select_best fork_chainwork best_fork meta_u64
    finalize_in_txn finalize_at fork_tip locate tip_of header_at network as_u64 as_text
    above_finalized finalized create_fork next_fork_id set_best_fork
two_located = refl

two_on_root : choose_target started 0 0 12 ≡ ok on_root
unfolding seed_core seed_checkpoints seed_sorted sort_by_height insert_by_height is_contiguous
    put_spine put_root put_checkpoint boundary_work set_network connect_headers network_ok
    known_prefix parent_hash connect_run connect_behind choose_target validate_run check_headers
    check_header check_difficulty check_time header_in median_time_past_at enforces_difficulty
    expected_bits work_at row_at owner_fork owner_loop fork_meta get store_run put_headers
    put_entries put_entry set_tip insert entries_of select_best fork_chainwork best_fork meta_u64
    finalize_in_txn finalize_at fork_tip locate tip_of header_at network as_u64 as_text
    above_finalized finalized create_fork next_fork_id set_best_fork
two_on_root = refl

two-ValidRun :
    ValidRun toy regtest
      (header_in (header_at started 0) two 1)
      1
      (parent_hash toy two (known_prefix toy started two) (header 1 2 3))
      two
unfolding seed_core seed_checkpoints seed_sorted sort_by_height insert_by_height is_contiguous
    put_spine put_root put_checkpoint boundary_work set_network connect_headers network_ok
    known_prefix parent_hash connect_run connect_behind choose_target validate_run check_headers
    check_header check_difficulty check_time header_in median_time_past_at enforces_difficulty
    expected_bits work_at row_at owner_fork owner_loop fork_meta get store_run put_headers
    put_entries put_entry set_tip insert entries_of select_best fork_chainwork best_fork meta_u64
    finalize_in_txn finalize_at fork_tip locate tip_of header_at network as_u64 as_text
    above_finalized finalized create_fork next_fork_id set_best_fork
two-ValidRun =
    (check_headers_iff_valid toy regtest (header_in (header_at started 0) two 1) two 1 1).0 refl

connect_headers-connects_example :
    (out : ConnectOutcome × Chain ToyHeader) × (connect_headers toy regtest started two ≡ ok out)
connect_headers-connects_example =
    connect_headers-connects toy regtest started two (header 1 2 3) (header 12 3 3 ∷ []) 0 0 on_root
      started_reached started-anchor started-Fits started-network two_new two_located two_on_root
      two-ValidRun

-- A fork that left the root at the height 1 before that height was finalized still wins.
abbrev with_fork : Chain ToyHeader
with_fork =
    set_finalized
      (value_of (connect_headers toy regtest grown.1 (header 1 7 2 ∷ [])) (nothing, grown.1)).1 1

old_fork_wins :
    best_fork
      (value_of
        (connect_headers toy regtest with_fork (header 17 8 50 ∷ []))
        (nothing, with_fork)).1
    ≡ some 1
unfolding seed_core seed_checkpoints seed_sorted sort_by_height insert_by_height is_contiguous
    put_spine put_root put_checkpoint boundary_work set_network connect_headers network_ok
    known_prefix parent_hash connect_run connect_behind choose_target validate_run check_headers
    check_header check_difficulty check_time header_in median_time_past_at enforces_difficulty
    expected_bits work_at row_at owner_fork owner_loop fork_meta get store_run put_headers
    put_entries put_entry set_tip insert entries_of select_best fork_chainwork best_fork meta_u64
    finalize_in_txn finalize_at fork_tip locate tip_of header_at network as_u64 as_text
    above_finalized finalized create_fork next_fork_id set_best_fork set_finalized
old_fork_wins = refl
