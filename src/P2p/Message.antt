-- ===== src/P2p/Message.antt =====
-- The messages of the `bitcoin` package that the client reads and sends, the errors of
-- crates/btc-p2p/src/error.rs, and a peer's connection. Hashes, addresses and texts are opaque
-- numbers and lists of bytes.
use rsk.Prelude.{ℕ, Bool, List}
use rsk.Prelude.Int.{ℤ}

pub record VersionMessage : Type 0 where
  pub version : ℕ
  pub services : ℕ
  pub timestamp : ℕ
  pub receiver : ℕ
  pub sender : ℕ
  pub nonce : ℕ
  pub user_agent : List ℕ
  pub start_height : ℤ

-- `NetworkMessage`. The kinds that the client does not name are `other`, by their command.
pub data Payload (Header : Type 0) : Type 0 where
  version : VersionMessage → Payload Header
  verack wtxid_relay send_addr_v2 : Payload Header
  ping pong : ℕ → Payload Header
  get_headers : List ℕ → ℕ → Payload Header
  headers : List Header → Payload Header
  other : ℕ → Payload Header

-- What `cmd()` tells of a message.
pub data Command : Type 0 where
  version_cmd verack_cmd wtxidrelay_cmd sendaddrv2_cmd ping_cmd pong_cmd : Command
  getheaders_cmd headers_cmd : Command
  other_cmd : ℕ → Command

unfoldable pub cmd : {Header : Type 0} → Payload Header → Command
cmd (version v) = version_cmd
cmd verack = verack_cmd
cmd wtxid_relay = wtxidrelay_cmd
cmd send_addr_v2 = sendaddrv2_cmd
cmd (ping n) = ping_cmd
cmd (pong n) = pong_cmd
cmd (get_headers locator stop) = getheaders_cmd
cmd (headers hs) = headers_cmd
cmd (other c) = other_cmd c

-- `Error` of crates/btc-p2p/src/error.rs, without texts. `out_of_fuel` is no value of the source.
pub data Error : Type 0 where
  io consensus protocol out_of_fuel : Error
  unexpected_message : Command → Command → Error

-- What one read of the decoder meets: a frame with its magic, its size in bytes and its message, or
-- bytes that do not decode. Of a frame above the size limit the decoder reads only as many bytes as
-- the limit: what follows it is what the bytes left of it read as.
pub data Received (Header : Type 0) : Type 0 where
  frame : ℕ → ℕ → Payload Header → Received Header
  garbled : Received Header

-- The stream of one peer: what its reads meet until it closes, whether the write number `n` will
-- succeed, and what was written so far. A peer that falls silent and stays open is not modelled:
-- reads have no timeout, so a read from it would not return.
pub record Session (Header : Type 0) : Type 0 where
  pub incoming : List (Received Header)
  pub write_ok : ℕ → Bool
  pub writes : ℕ
  pub sent : List (Payload Header)

-- What a method returns. It keeps the stream also where it fails.
pub data Reply {ℓ} (A : Type ℓ) : Type ℓ where
  err : Error → Reply A
  ok : A → Reply A

abbrev pub M {ℓ} : Type 0 → Type ℓ → Type ℓ
M Header A = Session Header → Reply A × Session Header

abbrev pub and_then {κ ℓ} :
    {Header : Type 0} {A : Type ℓ} {B : Type κ}
    → Reply A × Session Header
    → (A → M Header B)
    → Reply B × Session Header
and_then (err e, s) f = (err e, s)
and_then (ok a, s) f = f a s

infixl 5 ◌>>=◌ ◌>>◌
abbrev pub ◌>>=◌ {κ ℓ} :
    {Header : Type 0} {A : Type ℓ} {B : Type κ} → M Header A → (A → M Header B) → M Header B
◌>>=◌ m f s = and_then (m s) f

abbrev pub ◌>>◌ {κ} : {Header : Type 0} {B : Type κ} → M Header (Unit {0}) → M Header B → M Header B
m >> k = m >>= λ _. k

abbrev pub pure {ℓ} : {Header : Type 0} {A : Type ℓ} → A → M Header A
pure a s = (ok a, s)

abbrev pub fail {ℓ} : {Header : Type 0} {A : Type ℓ} → Error → M Header A
fail e s = (err e, s)
