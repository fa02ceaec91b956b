-- ===== src/Identity/Valid.antt =====
-- What Validate of internal/identity/identity.go accepts.
use skall.Base.{◌≡◌, ◌≢◌, ◌↔◌, false, none, arith, eq_iff, length}
use skall.Bytes.{Bytes-eq, is_empty, trim_space}
use skall.Identity.{Identity, Crypto, validate, identity_version, public_key_size, private_key_size}

module _ (crypto : Crypto) where
  -- The identity is complete, and its peer id and its keys belong together.
  pub record IsValid (i : Identity) : Type 0 where
    pub version_known : i.version ≡ identity_version
    pub peer_given : is_empty (trim_space i.peer_id) ≡ false
    pub user_given : is_empty (trim_space i.username) ≡ false
    pub display_given : is_empty (trim_space i.display_name) ≡ false
    pub dated : i.created_at ≢ 0
    pub public_size : length i.public_key ≡ public_key_size
    pub private_size : length i.private_key ≡ private_key_size
    pub paired : crypto.public_of i.private_key ≡ i.public_key
    pub own_peer_id : crypto.hex_sha256 i.public_key ≡ i.peer_id

  -- Validate returns nil for exactly the identities that are complete and whose peer id and public
  -- key are those of the private key.
  pub identity_validate_iff : (i : Identity) → (validate crypto i ≡ none) ↔ IsValid i
  unfolding validate
  identity_validate_iff i = (
    λ h. ground (
      arith,
      eq_iff (crypto.public_of i.private_key) i.public_key,
      eq_iff (crypto.hex_sha256 i.public_key) i.peer_id,
    ),
    λ v. ground (
      arith,
      eq_iff (crypto.public_of i.private_key) i.public_key,
      eq_iff (crypto.hex_sha256 i.public_key) i.peer_id,
    ),
  )

-- Two identities that pass and share a private key are the same peer.
same_key_same_peer :
    (crypto : Crypto) (i j : Identity)
    → validate crypto i ≡ none
    → validate crypto j ≡ none
    → i.private_key ≡ j.private_key
    → (i.public_key ≡ j.public_key) × (i.peer_id ≡ j.peer_id)
same_key_same_peer crypto i j vi vj e =
    let a = (identity_validate_iff crypto i).0 vi in
    let b = (identity_validate_iff crypto j).0 vj in
    ground (arith, a.paired, b.paired, a.own_peer_id, b.own_peer_id, e)
