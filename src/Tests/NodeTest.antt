-- ===== src/Tests/NodeTest.antt =====
-- The node on a store of one block and its spine.
use rsk.Prelude.{◌≤◌, ◌≡◌, refl, true, false, some, [], ◌∷◌, length}
use rsk.Prelude.Table.{get}
use rsk.Rows.Meta.{as_u64}
use rsk.Btc.Store.Meta.{best_fork, meta_u64, fork_tip, fork_meta}
use rsk.Btc.Store.Walk.{header_at, row_at, owner_fork, owner_loop}
use rsk.Btc.Query.{tip_height, canonical_header_at}
use rsk.Node.Sync.{locator, last?, next_alive, locator_ends}
use rsk.Tests.Sample.{toy}
use rsk.Tests.ConnectTest.{spine, genesis}

next_alive_3 : next_alive (false ∷ true ∷ false ∷ true ∷ []) 1 ≡ some 3
unfolding next_alive
next_alive_3 = refl

locator_ends_example : (last? (locator toy spine) ≡ some 1) × (length (locator toy spine) ≤ 11)
unfolding tip_height canonical_header_at best_fork meta_u64 as_u64 fork_tip fork_meta header_at
    row_at owner_fork owner_loop get
locator_ends_example = locator_ends toy spine 4032 genesis refl refl
