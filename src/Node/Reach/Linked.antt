-- ===== src/Node/Reach/Linked.antt =====
-- The rows of the stores that the node can bring about are linked.
use rsk.Prelude.{
  ℕ, ◌+◌, ◌≡◌, arith, refl, sym, ap, ◌∙◌, ◌⊎◌, inl, inr, some, List, ◌∷◌, drop, unwrap_or,
}
use rsk.Prelude.Table.{get, get-insert, pair_key, nat_key}
use rsk.Bitcoin.{Bitcoin, Network}
use rsk.Result.{Result-cases, ok}
use rsk.Rows.Header.{BtcRow}
use rsk.Rows.Meta.{text}
use rsk.Btc.Store.Meta.{
  Chain, meta_key, finalized_height, network_key, finalized, locate, set_network, meta_u64,
}
use rsk.Btc.Store.Seed.{seed_checkpoints}
use rsk.Btc.Store.Sound.{IsTree}
use rsk.Btc.Store.Linked.{IsLinked, InFork}
use rsk.Btc.Store.Seeded.{IsEmpty}
use rsk.Btc.Store.Seeded.Linked.{seed_checkpoints-IsLinked}
use rsk.Btc.Connect.{ConnectOutcome, connect_headers, known_prefix, parent_hash}
use rsk.Btc.Connect.Inversion.{connect_headers-cases}
use rsk.Btc.Connect.Floor.{IsFloor, connect_headers-IsFloor}
use rsk.Btc.Connect.Select.{SameRows, same_meta}
use rsk.Btc.Connect.Sound.{Fits, Fits-drop}
use rsk.Btc.Connect.Joined.{Joined, Steps-Joined}
use rsk.Btc.Connect.Linked.{Joined-IsLinked}
use rsk.Node.Anchor.{seed_core}
use rsk.Node.Reach.{Reached, seeds, connects, Reached-sound, set_network-SameRows}

module _ {Header : Type 0} (lib : Bitcoin Header) where
  same-IsLinked :
      (anchor : ℕ) (c s : Chain Header)
      → SameRows c s
      → IsLinked lib anchor c
      → IsLinked lib anchor s
  same-IsLinked anchor c s same rows = record {
    rows_in = λ f h x e. in_fork f h (rows.rows_in f h x (before f h x e));
    dense = λ f h above inside.
        let (x, row) = rows.dense f h above (record {
          meta = inside.meta;
          is_there = sym (same_meta c s same f) ∙ inside.is_there;
          above = inside.above;
          below = inside.below;
        }) in
        (x, after f h x row);
    within = λ f h y x above lower upper.
        rows.within f h y x above (before f h y lower) (before f (h + 1) x upper);
    joint = λ f p m there child.
        let joint = rows.joint f p m (sym (same_meta c s same f) ∙ there) child in
        record {
          height = joint.height;
          lower = joint.lower;
          upper = joint.upper;
          forkpoint_is = joint.forkpoint_is;
          has_lower = after p joint.height joint.lower joint.has_lower;
          has_upper = after f (joint.height + 1) joint.upper joint.has_upper;
          joins = joint.joins;
        };
    rooted = λ f m there root. rows.rooted f m (sym (same_meta c s same f) ∙ there) root;
    found = λ hash f h e.
        let (x, row, has_hash) = rows.found hash f h (located hash f h e) in
        (x, after f h x row, has_hash);
  }
    where
      before :
          (f h : ℕ) (x : BtcRow Header)
          → get s.headers (f, h) ≡ some x
          → get c.headers (f, h) ≡ some x
      before f h x e = ap (λ t. get t (f, h)) (sym same.same_headers) ∙ e

      after :
          (f h : ℕ) (x : BtcRow Header)
          → get c.headers (f, h) ≡ some x
          → get s.headers (f, h) ≡ some x
      after f h x e = ap (λ t. get t (f, h)) same.same_headers ∙ e

      located : (hash f h : ℕ) → locate s hash ≡ some (f, h) → locate c hash ≡ some (f, h)
      located hash f h e = unfold locate in (ap (λ t. get t hash) (sym same.same_hashes) ∙ e)

      in_fork : (f h : ℕ) → InFork c f h → InFork s f h
      in_fork f h inside = record {
        meta = inside.meta;
        is_there = same_meta c s same f ∙ inside.is_there;
        above = inside.above;
        below = inside.below;
      }

  finalized-set_network :
      (net : Network) (c : Chain Header) → finalized (set_network lib c net) ≡ finalized c
  unfolding set_network finalized meta_u64
  finalized-set_network net c =
      rw (get-insert c.meta network_key (text (lib.network_to_string net)) finalized_height) refl

module _ {Header : Type 0} (lib : Bitcoin Header) (net : Network) where
  seed_core-IsLinked :
      (c c' : Chain Header) (entries : List (ℕ × Header))
      → IsEmpty c
      → seed_core lib net c entries ≡ ok c'
      → IsLinked lib (unwrap_or (finalized c') 0) c' × IsFloor c' (unwrap_or (finalized c') 0)
  unfolding seed_core
  seed_core-IsLinked c c' entries empty e = elim (Result-cases (seed_checkpoints lib c entries)) [
    | inr (x, failed) ↦ cc (rw (failed, seed_core) at e)
    | inl (seeded, is) ↦
        let (k, final, rows) = seed_checkpoints-IsLinked lib c seeded entries empty is in
        let set : set_network lib seeded net ≡ c' = cc (rw (is, seed_core) at e) in
        let final' = finalized-set_network lib net seeded ∙ final in
        let anchor : unwrap_or (finalized (set_network lib seeded net)) 0 ≡ k =
          ap (λ o. unwrap_or o 0) final' in
        rw (← set) (
          rw anchor (
            same-IsLinked lib k seeded _ (set_network-SameRows lib net seeded) rows,
            (k, final', omega arith),
          ))
  ]

  -- A batch that connects stores a run, or changes nothing.
  pub connect_headers-Joined :
      (anchor : ℕ) (c final : Chain Header) (headers : List Header) (outcome : ConnectOutcome)
      → IsTree c
      → IsLinked lib anchor c
      → Fits lib c headers
      → connect_headers lib net c headers ≡ ok (outcome, final)
      → (final ≡ c)
        ⊎ ((first : Header) × (rest : List Header) × (drop (known_prefix lib c headers) headers
              ≡ first ∷ rest)
            × Joined lib c final
                (parent_hash lib headers (known_prefix lib c headers) first)
                (first ∷ rest))
  connect_headers-Joined anchor c final headers outcome tree rows fits e =
      elim (connect_headers-cases lib net c headers outcome final e) [
        | inl (_, _, same) ↦ inl same
        | inr (first, rest, new, steps) ↦ inr (
          first,
          rest,
          new,
          Steps-Joined lib anchor c rows net final
              (parent_hash lib headers (known_prefix lib c headers) first) first rest outcome tree
              (rw new at (Fits-drop lib c (known_prefix lib c headers) headers fits)) steps,
        )
      ]

  connect_headers-IsLinked :
      (anchor : ℕ) (c final : Chain Header) (headers : List Header) (outcome : ConnectOutcome)
      → IsTree c
      → IsLinked lib anchor c
      → Fits lib c headers
      → connect_headers lib net c headers ≡ ok (outcome, final)
      → IsLinked lib anchor final
  connect_headers-IsLinked anchor c final headers outcome tree rows fits e =
      elim (connect_headers-Joined anchor c final headers outcome tree rows fits e) [
        | inl same ↦ rw same rows
        | inr (first, rest, _, joined) ↦ Joined-IsLinked tree rows joined
      ]

  -- The height that the store was seeded up to.
  abbrev pub anchor_of : {c : Chain Header} → Reached lib net c → ℕ
  anchor_of (seeds c c' entries empty e) = unwrap_or (finalized c') 0
  anchor_of (connects c c' batch out before fits e) = anchor_of before

  pub Reached-IsLinked : (c : Chain Header) (r : Reached lib net c) → IsLinked lib (anchor_of r) c
  Reached-IsLinked _ (seeds c c' entries empty e) = (seed_core-IsLinked c c' entries empty e).0
  Reached-IsLinked _ (connects c c' batch out before fits e) =
      connect_headers-IsLinked (anchor_of before) c c' batch out (Reached-sound lib net c before).0
        (Reached-IsLinked c before) fits e

  -- The finalized height is not below the one that was seeded.
  pub Reached-IsFloor : (c : Chain Header) (r : Reached lib net c) → IsFloor c (anchor_of r)
  Reached-IsFloor _ (seeds c c' entries empty e) = (seed_core-IsLinked c c' entries empty e).1
  Reached-IsFloor _ (connects c c' batch out before fits e) =
      connect_headers-IsFloor lib net c c' batch out (anchor_of before) e (Reached-IsFloor c before)
