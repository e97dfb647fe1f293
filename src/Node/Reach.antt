-- ===== src/Node/Reach.antt =====
-- The stores that the node can bring about: an empty one that is seeded, and any batches of headers
-- connected to it.
pub mod Linked
pub mod Chains
pub mod Final
pub mod Best
pub mod Succeeds
use rsk.Prelude.{ℕ, ◌≡◌, refl, List, inl, inr}
use rsk.Prelude.Table.{get-insert}
use rsk.Bitcoin.{Bitcoin, Network}
use rsk.Result.{Result-cases, ok}
use rsk.Rows.Meta.{text}
use rsk.Btc.Store.Meta.{
  Chain, meta_key, meta_u64, best_fork, best_fork_key, next_fork, network_key, set_network,
}
use rsk.Btc.Store.Put.{next_fork_id}
use rsk.Btc.Store.Seed.{seed_checkpoints}
use rsk.Btc.Store.Sound.{IsTree, IsHeaviest}
use rsk.Btc.Store.Seeded.{IsEmpty, seed_checkpoints-IsSeeded}
use rsk.Btc.Connect.{ConnectOutcome, connect_headers}
use rsk.Btc.Connect.Select.{SameRows, same-IsTree, same-IsHeaviest}
use rsk.Btc.Connect.Sound.{Fits, connect_headers_sound}
use rsk.Node.Anchor.{seed_core}

-- A batch is connected while the numbers of the store leave room for it.
pub data Reached {Header : Type 0} (lib : Bitcoin Header) (net : Network)
    : Chain Header → Type 0 where
  seeds :
      (c c' : Chain Header) (entries : List (ℕ × Header))
      → IsEmpty c
      → seed_core lib net c entries ≡ ok c'
      → Reached lib net c'
  connects :
      (c c' : Chain Header) (batch : List Header) (out : ConnectOutcome)
      → Reached lib net c
      → Fits lib c batch
      → connect_headers lib net c batch ≡ ok (out, c')
      → Reached lib net c'

module _ {Header : Type 0} (lib : Bitcoin Header) (net : Network) where
  set_network-SameRows : (c : Chain Header) → SameRows c (set_network lib c net)
  unfolding set_network next_fork_id meta_u64
  set_network-SameRows c = record {
    same_forks = refl;
    same_headers = refl;
    same_hashes = refl;
    same_next =
        rw (get-insert c.meta network_key (text (lib.network_to_string net)) next_fork) refl;
  }

  best_fork-set_network : (c : Chain Header) → best_fork (set_network lib c net) ≡ best_fork c
  unfolding set_network best_fork meta_u64
  best_fork-set_network c =
      rw (get-insert c.meta network_key (text (lib.network_to_string net)) best_fork_key) refl

  seed_core_sound :
      (c c' : Chain Header) (entries : List (ℕ × Header))
      → IsEmpty c
      → seed_core lib net c entries ≡ ok c'
      → IsTree c' × IsHeaviest c'
  unfolding seed_core
  seed_core_sound c c' entries empty e = elim (Result-cases (seed_checkpoints lib c entries)) [
    | inr (x, failed) ↦ cc (rw (failed, seed_core) at e)
    | inl (seeded, is) ↦
        let (tree, heavy, _, _) = seed_checkpoints-IsSeeded lib c seeded entries empty is in
        let set : set_network lib seeded net ≡ c' = cc (rw (is, seed_core) at e) in
        let rows = set_network-SameRows seeded in
        rw (← set) (
          same-IsTree seeded _ rows tree,
          same-IsHeaviest seeded _ rows tree (best_fork-set_network seeded) heavy,
        )
  ]

  -- In every store that is seeded and then grows by batches that connect, the forks are a tree and
  -- no fork is heavier than the best one.
  pub Reached-sound : (c : Chain Header) → Reached lib net c → IsTree c × IsHeaviest c
  Reached-sound _ (seeds c c' entries empty e) = seed_core_sound c c' entries empty e
  Reached-sound _ (connects c c' batch out before fits e) =
      let (tree, heavy) = Reached-sound c before in
      connect_headers_sound lib net c c' batch out tree heavy fits e
