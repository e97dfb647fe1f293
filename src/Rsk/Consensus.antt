-- ===== src/Rsk/Consensus.antt =====
-- The Rootstock consensus package and the packages of its byte formats: what the program calls of
-- them, over an opaque type of headers. crates/rsk-consensus is a copy of another project.
use rsk.Prelude.{ℕ, Bool, Option, List}

-- The operations. `verify` is the success of `HeaderVerifier::verify` on a header and its parent,
-- `uncles_valid` that of `UnclesValidationRule::validate` on a header and its uncles, over the two
-- methods of its `AncestorSource`; `encoded_list` is the RLP list header of a payload's length.
pub record Rootstock (RskHeader : Type 0) : Type 0 where
  pub hash : RskHeader → ℕ
  pub number : RskHeader → ℕ
  pub parent_hash : RskHeader → ℕ
  pub difficulty : RskHeader → ℕ
  pub uncle_count : RskHeader → ℕ
  pub ommers_hash : RskHeader → ℕ
  pub bitcoin_merged_mining_header : RskHeader → Option (List ℕ)
  pub verify : RskHeader → Option RskHeader → Bool
  pub uncles_valid :
      (ℕ → Option RskHeader) → (ℕ → List RskHeader) → RskHeader → List RskHeader → Bool
  pub keccak256 : List ℕ → ℕ
  pub encoded_list : ℕ → List ℕ
  pub decode_with_hash : List ℕ → Option RskHeader
