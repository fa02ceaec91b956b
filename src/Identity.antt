-- ===== src/Identity.antt =====
-- The local identity (internal/identity): validation, the file it is kept in, and its creation.
pub mod Valid
pub mod File
use skall.Base.{
  ℕ, ◌≡◌, Bool, true, false, ◌||◌, not, Option, none, some, List, ◌++◌, nat_eq, leb, length, take,
  if◌then◌else◌, ◌==◌,
}
use skall.Bytes.{Bytes, Bytes-eq, lit, is_empty, trim_space}

abbrev pub identity_version : ℕ
identity_version = 1

abbrev pub public_key_size : ℕ
public_key_size = 32

abbrev pub private_key_size : ℕ
private_key_size = 64

pub record Identity : Type 0 where
  pub version : ℕ
  pub peer_id : Bytes
  pub username : Bytes
  pub display_name : Bytes
  pub created_at : ℕ
  pub public_key : Bytes
  pub private_key : Bytes

pub data IdentityError : Type 0 where
  missing_required invalid_key_pair peer_id_mismatch unsupported_version : IdentityError

-- crypto/ed25519, crypto/sha256 and encoding/hex, as far as the sources use them: the public half of
-- a private key, and the hexadecimal SHA-256 of a public key.
pub record Crypto : Type 0 where
  pub public_of : Bytes → Bytes
  pub hex_sha256 : Bytes → Bytes

module _ (crypto : Crypto) where
  -- PeerIDFromPublicKey
  abbrev pub peer_id_from_public_key : Bytes → Bytes
  peer_id_from_public_key key = crypto.hex_sha256 key

  -- Identity.Validate
  unfoldable pub validate : Identity → Option IdentityError
  validate i =
      if not (nat_eq i.version identity_version)
      then some unsupported_version
      else if is_empty (trim_space i.peer_id)
          || is_empty (trim_space i.username)
          || is_empty (trim_space i.display_name)
      then some missing_required
      else if nat_eq i.created_at 0
      then some missing_required
      else if not (nat_eq (length i.public_key) public_key_size)
          || not (nat_eq (length i.private_key) private_key_size)
      then some invalid_key_pair
      else if not (crypto.public_of i.private_key == i.public_key)
      then some invalid_key_pair
      else if not (peer_id_from_public_key i.public_key == i.peer_id)
      then some peer_id_mismatch
      else none

-- shortPeerID
unfoldable pub short_peer_id : Bytes → Bytes
short_peer_id peer_id = if leb (length peer_id) 8 then peer_id else take 8 peer_id

-- The identity that Generate builds from a fresh key pair.
unfoldable pub generated : Crypto → ℕ → Bytes → Bytes → Identity
generated crypto now public private =
    let peer_id = peer_id_from_public_key crypto public in
    let short = short_peer_id peer_id in
    record {
      version = identity_version;
      peer_id = peer_id;
      username = lit "user-" ++ short;
      display_name = lit "SKALL-" ++ short;
      created_at = now;
      public_key = public;
      private_key = private;
    }
