-- ===== src/Tests/Sample.antt =====
-- Concrete stand-ins for the `bitcoin` package. Two headers that encode to 80 bytes each serve the
-- byte forms; the headers of `toy` serve the chain: a block's hash is ten times its parent's, plus
-- its nonce, and every proof of work but that of nonce 9 holds.
use rsk.Prelude.{
  ℕ, zero, suc, ◌+◌, ◌*◌, ◌≡◌, refl, Bool, true, false, not, Option, none, some, List, [], ◌∷◌,
  length, replicate, ◌==◌,
}
use rsk.Bitcoin.{Bitcoin, EncodesHeaders, Network, bitcoin, testnet, testnet4, signet, regtest}

abbrev pub encode_bit : Bool → List ℕ
encode_bit true = replicate 80 1
encode_bit false = replicate 80 0

abbrev pub decode_bit : List ℕ → Option Bool
decode_bit [] = none
decode_bit (zero ∷ rest) = some false
decode_bit (suc n ∷ rest) = some true

abbrev pub name_of : Network → List ℕ
name_of bitcoin = 1 ∷ []
name_of testnet = 2 ∷ []
name_of testnet4 = 3 ∷ []
name_of signet = 4 ∷ []
name_of regtest = 5 ∷ []

abbrev pub named : List ℕ → Option Network
named (suc zero ∷ []) = some bitcoin
named (suc (suc zero) ∷ []) = some testnet
named (suc (suc (suc zero)) ∷ []) = some testnet4
named (suc (suc (suc (suc zero))) ∷ []) = some signet
named (suc (suc (suc (suc (suc zero)))) ∷ []) = some regtest
named _ = none

abbrev pub retargets_not : Network → Bool
retargets_not regtest = true
retargets_not _ = false

abbrev pub two_headers : Bitcoin Bool
two_headers = record {
  block_hash = λ h. 0;
  prev_blockhash = λ h. 0;
  bits = λ h. 0;
  time = λ h. 0;
  work = λ h. 0;
  pow_ok = λ h. true;
  retarget = λ n a b. 0;
  no_pow_retargeting = retargets_not;
  allow_min_difficulty_blocks = retargets_not;
  consensus_encode = encode_bit;
  consensus_decode = decode_bit;
  network_to_string = name_of;
  parse_network = named;
}

pub length-encode_bit : (h : Bool) → length (encode_bit h) ≡ 80
length-encode_bit true = refl
length-encode_bit false = refl

pub decode_bit-encode_bit : (h : Bool) → decode_bit (encode_bit h) ≡ some h
decode_bit-encode_bit true = refl
decode_bit-encode_bit false = refl

pub two_headers-EncodesHeaders : EncodesHeaders two_headers
two_headers-EncodesHeaders = record {
  encoded_length = length-encode_bit;
  decode-encode = decode_bit-encode_bit;
}

pub record ToyHeader : Type 0 where
  pub prev : ℕ
  pub nonce : ℕ
  pub at : ℕ
  pub target_bits : ℕ
  pub weight : ℕ

abbrev pub toy : Bitcoin ToyHeader
toy = record {
  block_hash = λ h. h.prev * 10 + h.nonce;
  prev_blockhash = λ h. h.prev;
  bits = λ h. h.target_bits;
  time = λ h. h.at;
  work = λ h. h.weight;
  pow_ok = λ h. not (h.nonce == 9);
  retarget = λ n a b. a.target_bits;
  no_pow_retargeting = retargets_not;
  allow_min_difficulty_blocks = retargets_not;
  consensus_encode = λ h. [];
  consensus_decode = λ bytes. none;
  network_to_string = name_of;
  parse_network = named;
}
