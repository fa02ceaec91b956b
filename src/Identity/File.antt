-- ===== src/Identity/File.antt =====
-- internal/identity/store.go: Load, Save and LoadOrCreate over a file system that keeps one file.
use skall.Base.{arith, ◌≡◌, Option, none, some, Result, ok, err}
use skall.Bytes.{Bytes}
use skall.Identity.Valid.{IsValid, identity_validate_iff}
use skall.Identity.{Identity, IdentityError, Crypto, validate}

-- encoding/json on identities: what is encoded is read back, for an identity that it can carry, whose
-- names are valid UTF-8 and whose time of creation has a year of four digits. `none` is an error.
pub record IdentityJson : Type 1 where
  pub encode : Identity → Option Bytes
  pub decode : Bytes → Option Identity
  pub Encodable : Identity → Type 0
  pub decode-encode :
      (i : Identity) → Encodable i → (b : Bytes) × (encode i ≡ some b) × (decode b ≡ some i)

pub data StoreError : Type 0 where
  not_exist not_permitted write_failed decode_failed encode_failed key_generation_failed :
      StoreError
  invalid : IdentityError → StoreError

-- The file at the store's path, and what the operating system answers to the calls of one method:
-- os.ReadFile on a file that is there, os.MkdirAll, os.WriteFile, and os.Chmod (where
-- `denied` is os.ErrPermission). `torn` is what a failed os.WriteFile leaves.
pub data Answer : Type 0 where
  done denied broken : Answer

pub record System : Type 0 where
  pub read : Answer
  pub mkdir : Answer
  pub write : Answer
  pub torn : Option Bytes
  pub chmod : Answer

abbrev pub File : Type 0
File = Option Bytes

read_file : System → File → Result StoreError Bytes
read_file sys none = err not_exist
read_file sys (some b) = elim sys.read [ done ↦ ok b | _ ↦ err not_permitted ]

module _ (crypto : Crypto) (json : IdentityJson) where
  unfoldable pub decode_identity : Bytes → Result StoreError Identity
  decode_identity b = elim (json.decode b) [
    | none ↦ err decode_failed
    | some i ↦ elim (validate crypto i) [ some e ↦ err (invalid e) | none ↦ ok i ]
  ]

  -- Store.Load
  unfoldable pub load : System → File → Result StoreError Identity
  unfolding read_file
  load sys file = elim (read_file sys file) [ err e ↦ err e | ok b ↦ decode_identity b ]

  -- Store.Save: the file after it, and the error.
  unfoldable pub save : System → File → Identity → File × Option StoreError
  save sys file i = elim (validate crypto i) [
    | some e ↦ (file, some (invalid e))
    | none ↦ elim sys.mkdir [
      | done ↦ elim (json.encode i) [
        | none ↦ (file, some encode_failed)
        | some b ↦ elim sys.write [
          | done ↦ (some b, elim sys.chmod [ broken ↦ some write_failed | _ ↦ none ])
          | _ ↦ (sys.torn, some write_failed)
        ]
      ]
      | _ ↦ (file, some write_failed)
    ]
  ]

  unfoldable pub create : System → File → Option Identity → File × Result StoreError Identity
  create sys file none = (file, err key_generation_failed)
  create sys file (some i) = elim (validate crypto i) [
    | some e ↦ (file, err (invalid e))
    | none ↦
        let (file', saved) = save sys file i in (file', elim saved [ none ↦ ok i | some e ↦ err e ])
  ]

  -- Store.LoadOrCreate: `fresh` is what Generate builds, or nothing when the keys fail.
  unfoldable pub load_or_create :
      System → File → Option Identity → File × Result StoreError Identity
  load_or_create sys file fresh = elim (load sys file) [
    | ok i ↦ (file, ok i)
    | err not_exist ↦ create sys file fresh
    | err e ↦ (file, err e)
  ]

module _ (crypto : Crypto) (json : IdentityJson) where
  -- A file that is there is never written, whatever it holds and whatever the system answers.
  pub load_or_create_keeps :
      (sys : System) (b : Bytes) (fresh : Option Identity)
      → (load_or_create crypto json sys (some b) fresh).0 ≡ some b
  unfolding load_or_create load decode_identity
  load_or_create_keeps sys b fresh = ground arith

  -- An identity that LoadOrCreate returned, and that JSON can carry, is the one that every later Load
  -- of the file returns, and it is valid.
  pub load-load_or_create :
      (sys later : System) (file : File) (fresh : Option Identity) {i : Identity}
      → json.Encodable i
      → later.read ≡ done
      → (load_or_create crypto json sys file fresh).1 ≡ ok i
      → (load crypto json later (load_or_create crypto json sys file fresh).0 ≡ ok i)
        × IsValid crypto i
  unfolding load_or_create load create save decode_identity
  load-load_or_create sys later file fresh {i} c r h =
      let (b, written, read) = json.decode-encode i c in
      (ground (arith, written, read), (identity_validate_iff crypto i).0 (ground arith))
