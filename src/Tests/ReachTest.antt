-- ===== src/Tests/ReachTest.antt =====
-- A store that is seeded with genesis and grows by two headers.
use rsk.Prelude.{◌%◌, ℕ, ◌≡◌, refl, some, ◌⊎◌, drop, List, [], ◌∷◌, arith}
use rsk.Prelude.Table.{get, insert}
use rsk.Bitcoin.{regtest}
use rsk.Result.{Result, ok, err}
use rsk.Rows.Meta.{as_u64, as_text}
use rsk.Btc.Store.Meta.{
  Chain, fork_meta, best_fork, finalized, meta_u64, fork_tip, locate, network, set_network,
}
use rsk.Btc.Store.Walk.{work_at, fork_chainwork, header_at, row_at, owner_fork, owner_loop}
use rsk.Btc.Validation.{median_time_past_at, enforces_difficulty, expected_bits, difficulty_period}
use rsk.Btc.Connect.Run.{
  validate_run, check_headers, check_header, check_difficulty, check_time, header_in,
}
use rsk.Btc.Connect.Finalize.{finalize_in_txn, finalize_at}
use rsk.Btc.Connect.{
  connect_headers, ConnectOutcome, network_ok, known_prefix, parent_hash, connect_run,
  connect_behind, choose_target, store_run, entries_of, select_best, tip_of,
}
use rsk.Btc.Connect.Sound.{Fits}
use rsk.Btc.Store.Put.{next_fork_id, put_headers, put_entries, put_entry, set_tip}
use rsk.Btc.Store.Seed.{
  seed_checkpoints, seed_sorted, sort_by_height, insert_by_height, is_contiguous, put_spine,
  put_root, put_checkpoint, boundary_work,
}
use rsk.Btc.Store.Seeded.{IsEmpty, IsSeeded, seed_checkpoints-IsSeeded}
use rsk.Btc.Store.Sound.{IsTree, IsHeaviest}
use rsk.Node.Anchor.{seed_core}
use rsk.Node.Reach.{Reached, seeds, connects, Reached-sound}
use rsk.Node.Reach.Linked.{anchor_of}
use rsk.Node.Reach.Chains.{Reached-Whole, connect_headers-Appended, Later, same, grows, Later-stays}
use rsk.Btc.Store.Linked.{Whole}
use rsk.Btc.Connect.Append.{Appended}
use rsk.Rows.Header.{BtcRow}
use rsk.Tests.Sample.{ToyHeader, toy}
use rsk.Tests.ConnectTest.{genesis, header, two, nothing}

abbrev empty : Chain ToyHeader
empty = record { headers = []; hash_loc = []; forks = []; checkpoints = []; meta = [] }

empty-IsEmpty : IsEmpty empty
unfolding fork_meta locate get
empty-IsEmpty = record { no_fork = λ f. refl; no_row = λ f h. refl; no_block = λ hash. refl }

abbrev spine : List (ℕ × ToyHeader)
spine = (0, genesis) ∷ (2016, header 7 2 3) ∷ []

abbrev value_of {ℓ} : {A : Type ℓ} → Result A → A → A
value_of (ok a) d = a
value_of (err x) d = d

abbrev planted : Chain ToyHeader
planted = value_of (seed_checkpoints toy empty spine) empty

planted-ok : seed_checkpoints toy empty spine ≡ ok planted
unfolding seed_checkpoints seed_sorted sort_by_height insert_by_height is_contiguous put_spine
    put_root put_checkpoint fork_meta get
planted-ok = refl

seed_checkpoints-IsSeeded_example : IsSeeded toy planted
seed_checkpoints-IsSeeded_example =
    seed_checkpoints-IsSeeded toy empty planted spine empty-IsEmpty planted-ok

abbrev pub started : Chain ToyHeader
started = value_of (seed_core toy regtest empty ((0, genesis) ∷ [])) empty

started-ok : seed_core toy regtest empty ((0, genesis) ∷ []) ≡ ok started
unfolding seed_core seed_checkpoints seed_sorted sort_by_height insert_by_height is_contiguous
    put_spine put_root put_checkpoint fork_meta get set_network insert
started-ok = refl

pub started-Fits : Fits toy started two
unfolding seed_core seed_checkpoints seed_sorted sort_by_height insert_by_height is_contiguous
    put_spine put_root put_checkpoint boundary_work fork_meta get set_network insert locate
    next_fork_id meta_u64 as_u64
started-Fits = record {
  heights = λ hash f h e. ground arith;
  works = λ f h row e. ground arith;
  numbers = omega arith;
}

abbrev pub grown : ConnectOutcome × Chain ToyHeader
grown = value_of (connect_headers toy regtest started two) (nothing, started)

grown-ok : connect_headers toy regtest started two ≡ ok grown
unfolding seed_core seed_checkpoints seed_sorted sort_by_height insert_by_height is_contiguous
    put_spine put_root put_checkpoint boundary_work set_network connect_headers network_ok
    known_prefix parent_hash connect_run connect_behind choose_target validate_run check_headers
    check_header check_difficulty check_time header_in median_time_past_at enforces_difficulty
    expected_bits work_at row_at owner_fork owner_loop fork_meta get store_run put_headers
    put_entries put_entry set_tip insert entries_of select_best fork_chainwork best_fork meta_u64
    finalize_in_txn finalize_at fork_tip locate tip_of header_at network as_u64 as_text
grown-ok = refl

pub started_reached : Reached toy regtest started
started_reached = seeds empty started ((0, genesis) ∷ []) empty-IsEmpty started-ok

pub started-anchor : anchor_of toy regtest started_reached % difficulty_period ≡ 0
unfolding seed_core seed_checkpoints seed_sorted sort_by_height insert_by_height is_contiguous
    put_spine put_root put_checkpoint fork_meta get set_network insert finalized meta_u64 as_u64
    started_reached
started-anchor = refl

pub grown-Reached : Reached toy regtest grown.1
grown-Reached = connects started grown.1 two grown.0 started_reached started-Fits grown-ok

Reached-sound_example : IsTree grown.1 × IsHeaviest grown.1
Reached-sound_example = Reached-sound toy regtest grown.1 grown-Reached

Reached-Whole_example : Whole toy (anchor_of toy regtest grown-Reached) grown.1
Reached-Whole_example = Reached-Whole toy regtest grown.1 grown-Reached

connect_headers-Appended_example :
    (grown.1 ≡ started)
    ⊎ ((first : ToyHeader) × (rest : List ToyHeader) × (drop (known_prefix toy started two) two
          ≡ first ∷ rest)
        × Appended toy started grown.1
            (parent_hash toy two (known_prefix toy started two) first)
            (first ∷ rest))
connect_headers-Appended_example =
    connect_headers-Appended toy regtest started grown.1 two grown.0 started_reached started-Fits
      grown-ok

abbrev pub first_row : BtcRow ToyHeader
first_row = record { header = genesis; work = 5 }

started_read : row_at started 0 0 ≡ some first_row
unfolding seed_core seed_checkpoints seed_sorted sort_by_height insert_by_height is_contiguous
    put_spine put_root put_checkpoint boundary_work fork_meta get set_network insert row_at
    owner_fork owner_loop
started_read = refl

started-Later : Later toy regtest started grown.1
started-Later = grows started grown.1 two grown.0 same started-Fits grown-ok

Later-stays_example : row_at grown.1 0 0 ≡ some first_row
Later-stays_example =
    Later-stays toy regtest started grown.1 0 0 first_row started_reached started_read started-Later
