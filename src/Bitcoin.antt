-- ===== src/Bitcoin.antt =====
-- The `bitcoin` package, which is not in the repository: what the program calls of it, over an
-- opaque type of block headers. Hashes, targets in compact form, times and works are numbers.
use rsk.Prelude.{ℕ, ◌≡◌, Bool, Option, some, List, length, ◌==◌}

-- `bitcoin::Network`
pub data Network : Type 0 where
  bitcoin testnet testnet4 signet regtest : Network

-- The operations. `work` is `header.target().to_work()`, `pow_ok` is the success of
-- `header.validate_pow(header.target())`, and `retarget` is
-- `CompactTarget::from_header_difficulty_adjustment(first, last, params)`.
pub record Bitcoin (Header : Type 0) : Type 0 where
  pub block_hash : Header → ℕ
  pub prev_blockhash : Header → ℕ
  pub bits : Header → ℕ
  pub time : Header → ℕ
  pub work : Header → ℕ
  pub pow_ok : Header → Bool
  pub retarget : Network → Header → Header → ℕ
  pub no_pow_retargeting : Network → Bool
  pub allow_min_difficulty_blocks : Network → Bool
  pub consensus_encode : Header → List ℕ
  pub consensus_decode : List ℕ → Option Header
  -- `Network::to_string` and `str::parse::<Network>().ok()`, on the bytes of the text
  pub network_to_string : Network → List ℕ
  pub parse_network : List ℕ → Option Network

-- Its documented behaviour: a header encodes to 80 bytes, and decodes to itself.
pub record EncodesHeaders {Header : Type 0} (lib : Bitcoin Header) : Type 0 where
  pub encoded_length : (h : Header) → length (lib.consensus_encode h) ≡ 80
  pub decode-encode : (h : Header) → lib.consensus_decode (lib.consensus_encode h) ≡ some h

abbrev pub network_code : Network → ℕ
network_code bitcoin = 0
network_code testnet = 1
network_code testnet4 = 2
network_code signet = 3
network_code regtest = 4

-- `==` on networks.
abbrev pub network_beq : Network → Network → Bool
network_beq a b = network_code a == network_code b
