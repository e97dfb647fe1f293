-- ===== src/Rsk/Tree/Stored.antt =====
-- What the ancestry of the uncle rule reads from the store: `TxnAncestors` of crates/core/src/rsk.rs.
use mathlib.Core.Path.{ap₂}
use rsk.Prelude.{
  ℕ, ◌≡◌, refl, sym, ap, ◌∙◌, ◌⊎◌, inl, inr, Option, none, some, List, [], ◌∷◌, Option-cases,
  unwrap_or,
}
use rsk.Prelude.Table.{get, nat_key}
use rsk.Rsk.Consensus.{Rootstock}
use rsk.Rsk.Forest.{Forest, rsk_raw_header, rsk_uncle_raw}
use rsk.Rsk.Tree.{ancestor_header, ancestor_uncles, decode_all}

module _ {RskHeader : Type 0} (rules : Rootstock RskHeader) where
  -- The header that is stored under a hash, where there is one and it decodes.
  abbrev pub StoredHeader : Forest → ℕ → Option RskHeader → Type 0
  StoredHeader txn hash header =
      ((raw : List ℕ) × (get txn.headers hash ≡ some raw) × (header ≡ rules.decode_with_hash raw))
      ⊎ ((get txn.headers hash ≡ none) × (header ≡ none))

  -- The headers that a list of raw headers decodes to, without those that do not decode.
  pub data Decodes : List (List ℕ) → List RskHeader → Type 0 where
    no_more : Decodes [] []
    decoded :
        {raw : List ℕ} {bytes : List (List ℕ)} {h : RskHeader} {hs : List RskHeader}
        → rules.decode_with_hash raw ≡ some h
        → Decodes bytes hs
        → Decodes (raw ∷ bytes) (h ∷ hs)
    skipped :
        {raw : List ℕ} {bytes : List (List ℕ)} {hs : List RskHeader}
        → rules.decode_with_hash raw ≡ none
        → Decodes bytes hs
        → Decodes (raw ∷ bytes) hs

  -- The uncles that are stored with the block of a hash.
  abbrev pub StoredUncles : Forest → ℕ → List RskHeader → Type 0
  StoredUncles txn hash headers = Decodes (unwrap_or (get txn.uncles hash) []) headers

  pub ancestor_header-StoredHeader :
      (txn : Forest) (hash : ℕ) → StoredHeader txn hash (ancestor_header rules txn hash)
  unfolding ancestor_header rsk_raw_header
  ancestor_header-StoredHeader txn hash = elim (Option-cases (get txn.headers hash)) [
    | inl gone ↦ inr (gone, rw (gone, ancestor_header) refl)
    | inr (raw, is) ↦ inl (raw, is, rw (is, ancestor_header) refl)
  ]

  pub StoredHeader-unique :
      (txn : Forest) (hash : ℕ) (a b : Option RskHeader)
      → StoredHeader txn hash a
      → StoredHeader txn hash b
      → a ≡ b
  StoredHeader-unique txn hash a b (inl (raw, is, of)) (inl (raw', is', of')) =
      let same : raw ≡ raw' = cc (sym is ∙ is') in of ∙ ap rules.decode_with_hash same ∙ sym of'
  StoredHeader-unique txn hash a b (inl (raw, is, of)) (inr (gone, _)) = cc (sym is ∙ gone)
  StoredHeader-unique txn hash a b (inr (gone, _)) (inl (raw, is, _)) = cc (sym is ∙ gone)
  StoredHeader-unique txn hash a b (inr (_, of)) (inr (_, of')) = of ∙ sym of'

  decode_all-Decodes : (bytes : List (List ℕ)) → Decodes bytes (decode_all rules bytes)
  decode_all-Decodes [] = no_more
  decode_all-Decodes (raw ∷ bytes) = elim (Option-cases (rules.decode_with_hash raw)) [
    | inl fails ↦ rw (fails, decode_all) (skipped fails (decode_all-Decodes bytes))
    | inr (h, is) ↦ rw (is, decode_all) (decoded is (decode_all-Decodes bytes))
  ]

  pub Decodes-unique :
      (bytes : List (List ℕ)) (hs hs' : List RskHeader)
      → Decodes bytes hs
      → Decodes bytes hs'
      → hs ≡ hs'
  Decodes-unique [] [] [] no_more no_more = refl
  Decodes-unique [] [] (h' ∷ hs') _ x = elim x [ ]
  Decodes-unique [] (h ∷ hs) hs' x _ = elim x [ ]
  Decodes-unique (raw ∷ bytes) (h ∷ hs) (h' ∷ hs') (decoded is rest) (decoded is' rest') =
      let same : h ≡ h' = cc (sym is ∙ is') in ap₂ ◌∷◌ same (Decodes-unique bytes hs hs' rest rest')
  Decodes-unique (raw ∷ bytes) (h ∷ hs) hs' (decoded is rest) (skipped fails _) =
      cc (sym is ∙ fails)
  Decodes-unique (raw ∷ bytes) hs (h ∷ hs') (skipped fails _) (decoded is rest) =
      cc (sym is ∙ fails)
  Decodes-unique (raw ∷ bytes) hs hs' (skipped _ rest) (skipped _ rest') =
      Decodes-unique bytes hs hs' rest rest'

  pub ancestor_uncles-StoredUncles :
      (txn : Forest) (hash : ℕ) → StoredUncles txn hash (ancestor_uncles rules txn hash)
  unfolding ancestor_uncles rsk_uncle_raw
  ancestor_uncles-StoredUncles txn hash = decode_all-Decodes (unwrap_or (get txn.uncles hash) [])
