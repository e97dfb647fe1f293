-- ===== src/Tests/ConnectTest.antt =====
-- Connecting headers, on the headers of `toy`.
use rsk.Prelude.{ℕ, ◌≡◌, ◌≤◌, refl, ◌↔◌, inl, inr, Option-cases, none, some, List, [], ◌∷◌, arith}
use rsk.Bitcoin.{regtest}
use rsk.Result.{Result, ok, err}
use rsk.Prelude.Table.{get, insert}
use rsk.Rows.Fork.{ForkMeta, reread}
use rsk.Rows.Meta.{u64, as_u64}
use rsk.Btc.Store.Meta.{
  Chain, fork_meta, best_fork_key, next_fork, finalized_height, best_fork, meta_u64, fork_tip,
  locate, meta_key, network, set_finalized,
}
use rsk.Btc.Store.Walk.{work_at, fork_chainwork, header_at, row_at, owner_fork, owner_loop}
use rsk.Btc.Store.Put.{next_fork_id, put_headers, put_entries, put_entry, set_tip}
use rsk.Btc.Store.Sound.{IsTree, IsHeaviest, HasTip, fork_chainwork_of_tip, fork_chainwork-none}
use rsk.Btc.Validation.{median_time_past_at, enforces_difficulty, expected_bits}
use rsk.Btc.Connect.Run.{
  validate_run, check_headers, check_header, check_difficulty, check_time, header_in,
}
use rsk.Btc.Connect.Finalize.{finalize_in_txn, finalize_at}
use rsk.Btc.Connect.{
  connect_headers, ConnectOutcome, network_ok, known_prefix, parent_hash, connect_run,
  connect_behind, choose_target, store_run, entries_of, select_best, tip_of,
}
use rsk.Btc.Connect.Finalize.Advance.{Advanced, finalize_iff_Advanced}
use rsk.Btc.Connect.Written.{Written}
use rsk.Btc.Connect.Sound.{Fits, connect_headers_sound}
use rsk.Tests.Sample.{ToyHeader, toy}

abbrev pub header : ℕ → ℕ → ℕ → ToyHeader
header p n w = record { prev = p; nonce = n; at = n; target_bits = 1; weight = w }

-- A store of one block.
abbrev pub genesis : ToyHeader
genesis = header 0 1 5

abbrev root : ForkMeta
root = record {
  forkpoint = 0;
  parent = none;
  forkpoint_hash = 1;
  tip_height = 0;
  tip_hash = 1;
  tip_work = 5;
}

abbrev pub seeded : Chain ToyHeader
seeded = record {
  headers = ((0, 0), record { header = genesis; work = 5 }) ∷ [];
  hash_loc = (1, (0, 0)) ∷ [];
  forks = (0, root) ∷ [];
  checkpoints = (0, genesis) ∷ [];
  meta = (best_fork_key, u64 0) ∷ (next_fork, u64 1) ∷ (finalized_height, u64 0) ∷ [];
}

abbrev pub two : List ToyHeader
two = header 1 2 3 ∷ header 12 3 3 ∷ []

abbrev value_of {ℓ} : {A : Type ℓ} → Result A → A → A
value_of (ok a) d = a
value_of (err x) d = d

abbrev pub nothing : ConnectOutcome
nothing = record {
  connected = 0;
  prev_best_fork = none;
  best_fork = none;
  tip_height = 0;
  finalized = none;
}

abbrev pub grown : ConnectOutcome × Chain ToyHeader
grown = value_of (connect_headers toy regtest seeded two) (nothing, seeded)

grown-ok : connect_headers toy regtest seeded two ≡ ok grown
unfolding connect_headers network_ok known_prefix parent_hash connect_run connect_behind
    choose_target validate_run check_headers check_header check_difficulty check_time header_in
    median_time_past_at enforces_difficulty expected_bits work_at row_at owner_fork owner_loop
    fork_meta get store_run put_headers put_entries put_entry set_tip insert entries_of select_best
    fork_chainwork best_fork meta_u64 finalize_in_txn finalize_at fork_tip locate tip_of header_at
    network as_u64
grown-ok = refl

fork_meta-seeded :
    (f : ℕ) (m : ForkMeta) → fork_meta seeded f ≡ some m → (0 ≡ f) × (reread root ≡ m)
unfolding fork_meta get
fork_meta-seeded f m e = (ground arith, ground arith)

seeded-HasTip : HasTip seeded 0 (reread root)
unfolding get
seeded-HasTip = record {
  owned = omega arith;
  row = record { header = genesis; work = 5 };
  stored = refl;
}

seeded-IsTree : IsTree seeded
unfolding fork_meta get locate next_fork_id
seeded-IsTree = record {
  parents = record { below = λ f p m there child. ground arith };
  numbered = λ f m there. ground arith;
  tips = λ f m there.
      let (root_fork, root_meta) = fork_meta-seeded f m there in
      rw (← root_fork) (rw (← root_meta) seeded-HasTip);
  located =
      λ hash f h e. let root_fork : 0 ≡ f = ground arith in (reread root, rw (← root_fork) refl);
}

fork_chainwork-seeded : (f w : ℕ) → fork_chainwork seeded f ≡ some w → w ≤ 5
fork_chainwork-seeded f w e = elim (Option-cases (fork_meta seeded f)) [
  | inl gone ↦ cc (fork_chainwork-none seeded f gone, e)
  | inr (m, there) ↦
      let (root_fork, _) = fork_meta-seeded f m there in
      let five : fork_chainwork seeded 0 ≡ some 5 =
        fork_chainwork_of_tip seeded 0 (reread root) (record { header = genesis; work = 5 })
          (unfold fork_meta get in refl) (omega arith) (unfold get in refl) in
      let same : 5 ≡ w = cc (five, root_fork, e) in omega arith
]

seeded-IsHeaviest : IsHeaviest seeded
unfolding fork_chainwork fork_meta get best_fork work_at row_at owner_fork owner_loop
seeded-IsHeaviest = record {
  best = 0;
  best_work = 5;
  is_best = refl;
  has_work = refl;
  heaviest = fork_chainwork-seeded;
}

seeded-Fits : Fits toy seeded two
unfolding get locate next_fork_id
seeded-Fits = record {
  heights = λ hash f h e. ground arith;
  works = λ f h row e. ground arith;
  numbers = omega arith;
}

connect_headers_sound_example : IsTree grown.1 × IsHeaviest grown.1
connect_headers_sound_example =
    connect_headers_sound toy regtest seeded grown.1 two grown.0 seeded-IsTree seeded-IsHeaviest
      seeded-Fits grown-ok

-- A root chain of 4032 blocks, of which three are stored.
abbrev pub spine : Chain ToyHeader
spine = record seeded {
  headers =
      ((0, 0), record { header = genesis; work = 5 })
      ∷ ((0, 2016), record { header = genesis; work = 10 })
      ∷ ((0, 4032), record { header = genesis; work = 15 })
      ∷ [];
  forks = (0, record root { tip_height = 4032 }) ∷ [];
}

finalize_iff_Advanced_example :
    (finalize_in_txn spine ≡ ok (some 2016, set_finalized spine 2016)) ↔ Advanced spine 2016
finalize_iff_Advanced_example = finalize_iff_Advanced spine 2016
