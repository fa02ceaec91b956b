-- ===== src/Tests/Identity.antt =====
-- The properties of the identity and its file at an identity with zero keys.
use skall.Base.{ℕ, zero, suc, ◌≡◌, ◌↔◌, refl, none, some, [], ◌∷◌, ok}
use skall.Bytes.{Bytes, lit, trim_space, bytes_eq}
use skall.Identity.{Identity, validate}
use skall.Identity.Valid.{IsValid, identity_validate_iff}
use skall.Identity.File.{
  System, done, denied, load, save, create, load_or_create, load_or_create_keeps,
  load-load_or_create, decode_identity,
}
use skall.Tests.Codec.{crypto, identity_json}

abbrev zeros : ℕ → Bytes
zeros zero = []
zeros (suc n) = 0 ∷ zeros n

abbrev ann : Identity
ann = record {
  version = 1;
  peer_id = zeros 32;
  username = lit "user-ann";
  display_name = lit "SKALL-ann";
  created_at = 4;
  public_key = zeros 32;
  private_key = zeros 64;
}

abbrev working : System
working = record { read = done; mkdir = done; write = done; torn = none; chmod = denied }

identity_validate_iff_example : (validate crypto ann ≡ none) ↔ IsValid crypto ann
identity_validate_iff_example = identity_validate_iff crypto ann

load_or_create_keeps_example :
    (load_or_create crypto identity_json working (some (lit "{")) (some ann)).0 ≡ some (lit "{")
load_or_create_keeps_example =
    load_or_create_keeps crypto identity_json working (lit "{") (some ann)

load-load_or_create_example :
    (load crypto identity_json working
        (load_or_create crypto identity_json working none (some ann)).0
      ≡ ok ann)
    × IsValid crypto ann
unfolding load_or_create load create save decode_identity validate trim_space bytes_eq
load-load_or_create_example =
    load-load_or_create crypto identity_json working working none (some ann) tt refl refl

abbrev renamed : Identity
renamed = record ann { username = lit "other" }
