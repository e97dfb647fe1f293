-- ===== src/Rsk/Tree/Accepted.antt =====
-- Which runs of Rootstock headers are accepted, and what a stored entry adds to the tree.
use mathlib.Core.Path.{fun_ext, ap₂}
use rsk.Prelude.{
  ℕ, ◌≡◌, refl, sym, ap, ◌∙◌, Option, unwrap_or, ◌++◌, ◌↔◌, ◌⊎◌, inl, inr, Bool, true, List, [],
  ◌∷◌, map, ◌==◌, arith, length,
}
use rsk.Prelude.Table.{get, nat_key}
use rsk.Result.{ok, guard, rootstock, ◌>>◌, Result-cases}
use rsk.Rsk.Consensus.{Rootstock}
use rsk.Rsk.Forest.{Forest, RskEntry, RskUncle, rsk_put_entry}
use rsk.Rsk.Tree.Stored.{
  StoredHeader, StoredUncles, ancestor_header-StoredHeader, ancestor_uncles-StoredUncles,
  StoredHeader-unique, Decodes-unique,
}
use rsk.Rsk.Tree.{
  uncle_rule, validate_entry, store_entries, encoded_uncles, ancestor_header, ancestor_uncles, raws,
}

four_guards :
    (a b c d : Bool)
    → ((guard a rootstock >> (guard b rootstock >> (guard c rootstock >> guard d rootstock)))
        ≡ ok tt)
      ↔ ((a ≡ true) × (b ≡ true) × (c ≡ true) × (d ≡ true))
four_guards a b c d = ground arith

module _ {RskHeader : Type 0} (rules : Rootstock RskHeader) where
  -- What the uncle list says in bytes: its uncles one behind the other.
  abbrev pub payload : List (RskUncle RskHeader) → List ℕ
  payload [] = []
  payload (u ∷ us) = u.raw ++ payload us

  -- The uncle rule over what is stored.
  abbrev pub UnclesOk : Forest → RskHeader → List (RskUncle RskHeader) → Type 0
  UnclesOk txn header uncles =
      (uncles ≡ [])
      ⊎ ((headers : ℕ → Option RskHeader) × (uncles_at : ℕ → List RskHeader) × ((hash : ℕ)
            → StoredHeader rules txn hash (headers hash))
          × ((hash : ℕ) → StoredUncles rules txn hash (uncles_at hash))
          × (rules.uncles_valid headers uncles_at header (map (λ u. u.header) uncles) ≡ true))

  -- The rules of an entry: its uncles are those that the header counts and commits to; the header is
  -- valid behind its parent, where the parent is stored, and else by the rules that need no parent;
  -- and where there are uncles, they are valid over the stored headers and uncles.
  pub record IsValid (txn : Forest) (entry : RskEntry RskHeader) : Type 0 where
    pub counted : length entry.uncles ≡ rules.uncle_count entry.header
    pub committed :
        rules.keccak256 (rules.encoded_list (length (payload entry.uncles)) ++ payload entry.uncles)
        ≡ rules.ommers_hash entry.header
    pub parent : Option RskHeader
    pub stored_parent : StoredHeader rules txn (rules.parent_hash entry.header) parent
    pub verified : rules.verify entry.header parent ≡ true
    pub uncles_ok : UnclesOk txn entry.header entry.uncles

  -- The entries are valid one after the other, each against the store with those before it.
  pub data Accepts : Forest → List (RskEntry RskHeader) → Forest → Type 0 where
    done : {txn : Forest} → Accepts txn [] txn
    step :
        {txn final : Forest} {entry : RskEntry RskHeader} {entries : List (RskEntry RskHeader)}
        → IsValid txn entry
        → Accepts (rsk_put_entry rules txn entry).1 entries final
        → Accepts txn (entry ∷ entries) final

  uncle_rule_iff :
      (txn : Forest) (header : RskHeader) (uncles : List (RskUncle RskHeader))
      → (uncle_rule rules txn header uncles ≡ true) ↔ UnclesOk txn header uncles
  unfolding uncle_rule
  uncle_rule_iff txn header [] = (λ e. inl refl, λ e. refl)
  uncle_rule_iff txn header (u ∷ us) = (
    λ e. inr (
      ancestor_header rules txn,
      ancestor_uncles rules txn,
      ancestor_header-StoredHeader rules txn,
      ancestor_uncles-StoredUncles rules txn,
      e,
    ),
    λ e. elim e [
      | inl never ↦ cc never
      | inr (headers, uncles_at, are_headers, are_uncles, holds) ↦
          let same_headers : headers ≡ ancestor_header rules txn = fun_ext (λ hash.
            StoredHeader-unique rules txn hash (headers hash) (ancestor_header rules txn hash)
              (are_headers hash) (ancestor_header-StoredHeader rules txn hash)) in
          let same_uncles : uncles_at ≡ ancestor_uncles rules txn = fun_ext (λ hash.
            Decodes-unique rules (unwrap_or (get txn.uncles hash) []) (uncles_at hash)
              (ancestor_uncles rules txn hash) (are_uncles hash)
              (ancestor_uncles-StoredUncles rules txn hash)) in
          ap₂ (λ f g. rules.uncles_valid f g header (map (λ x. x.header) (u ∷ us)))
            (sym same_headers) (sym same_uncles)
          ∙ holds
    ],
  )

  raws-eq-payload : (uncles : List (RskUncle RskHeader)) → raws rules uncles ≡ payload uncles
  raws-eq-payload [] = refl
  raws-eq-payload (u ∷ us) = ap (λ l. u.raw ++ l) (raws-eq-payload us)

  encoded_uncles-eq :
      (uncles : List (RskUncle RskHeader))
      → encoded_uncles rules uncles ≡ rules.encoded_list (length (payload uncles)) ++ payload uncles
  unfolding encoded_uncles
  encoded_uncles-eq uncles = ap (λ l. rules.encoded_list (length l) ++ l) (raws-eq-payload uncles)

  validate_entry-IsValid :
      (txn : Forest) (entry : RskEntry RskHeader)
      → (validate_entry rules txn entry ≡ ok tt) ↔ IsValid txn entry
  unfolding validate_entry
  validate_entry-IsValid txn entry =
      let stored = ancestor_header rules txn (rules.parent_hash entry.header) in
      let is_stored = ancestor_header-StoredHeader rules txn (rules.parent_hash entry.header) in
      let uncles = uncle_rule_iff txn entry.header entry.uncles in
      let commits = ap rules.keccak256 (encoded_uncles-eq entry.uncles) in
      let all =
        four_guards (length entry.uncles == rules.uncle_count entry.header)
          (rules.keccak256 (encoded_uncles rules entry.uncles) == rules.ommers_hash entry.header)
          (rules.verify entry.header stored) (uncle_rule rules txn entry.header entry.uncles) in
      (
        λ e.
            let (counted, committed, verified, uncled) = all.0 e in
            record {
              counted = ground arith;
              committed = sym commits ∙ equal _ _ committed;
              parent = stored;
              stored_parent = is_stored;
              verified = verified;
              uncles_ok = uncles.0 uncled;
            },
        λ v. all.1 (
          equal_back _ _ v.counted,
          equal_back _ _ (commits ∙ v.committed),
          ap (rules.verify entry.header) (
                StoredHeader-unique rules txn (rules.parent_hash entry.header) stored v.parent
                  is_stored v.stored_parent)
              ∙ v.verified,
          uncles.1 v.uncles_ok,
        ),
      )
    where
      equal : (a b : ℕ) → (a == b) ≡ true → a ≡ b
      equal a b e = ground arith

      equal_back : (a b : ℕ) → a ≡ b → (a == b) ≡ true
      equal_back a b e = ground arith

  store_entries_sound :
      (txn final : Forest) (entries : List (RskEntry RskHeader))
      → store_entries rules txn entries ≡ ok final
      → Accepts txn entries final
  unfolding store_entries
  store_entries_sound txn final [] e = let same : txn ≡ final = cc e in rw (← same) done
  store_entries_sound txn final (entry ∷ entries) e =
      elim (Result-cases (validate_entry rules txn entry)) [
        | inr (x, failed) ↦ cc (rw failed at e)
        | inl (_, valid) ↦
            step ((validate_entry-IsValid txn entry).0 valid)
              (store_entries_sound (rsk_put_entry rules txn entry).1 final entries (rw valid at e))
      ]

  store_entries_complete :
      (txn final : Forest) (entries : List (RskEntry RskHeader))
      → Accepts txn entries final
      → store_entries rules txn entries ≡ ok final
  unfolding store_entries
  store_entries_complete txn final [] done = refl
  store_entries_complete txn final (entry ∷ entries) (step valid rest) =
      rw ((validate_entry-IsValid txn entry).1 valid)
        (store_entries_complete (rsk_put_entry rules txn entry).1 final entries rest)

  -- A run of entries is stored exactly if each is valid against the store with those before it: by
  -- its uncles and the hash of them, by the rules of a header behind its parent where the parent is
  -- stored and without one where it is not, and by the uncle rule over what is stored.
  pub store_entries_iff_Accepts :
      (txn final : Forest) (entries : List (RskEntry RskHeader))
      → (store_entries rules txn entries ≡ ok final) ↔ Accepts txn entries final
  store_entries_iff_Accepts txn final entries =
      (store_entries_sound txn final entries, store_entries_complete txn final entries)
