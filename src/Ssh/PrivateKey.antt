-- ===== src/Ssh/PrivateKey.antt =====
-- internal/sshagent/key.go: reading a private key file. `encoding/pem` and golang.org/x/crypto/ssh are
-- the arguments `Formats`.
use kpxcd.Prelude.{[], Option, none, some, Bytes, codes, null, bytes_Eq, ◌==◌, if◌then◌else◌}
use kpxcd.Prelude.Results.{Result, ok, err}
use kpxcd.Ssh.Identity.{Key}
use kpxcd.Ssh.OpenSsh.{extract_public_blob}

-- What a private key file is taken for.
pub data Raw (R : Type 0) : Type 0 where
  parsed : R → Raw R
  passphrase_missing malformed : Raw R

-- `signer` is the type assertion with `NewSignerFromSigner`, `kind` and `marshal` are `Type` and
-- `Marshal` of the signer's public key, and `parse_public_key` gives both of the key it reads. A
-- decoded PEM block is its type and its bytes.
pub record Formats (R S : Type 0) : Type 0 where
  pub parse_raw_private_key : Bytes → Raw R
  pub parse_raw_private_key_with_passphrase : Bytes → Bytes → Raw R
  pub signer : R → Option S
  pub kind : S → Bytes
  pub marshal : S → Bytes
  pub pem_decode : Bytes → Option (Bytes × Bytes)
  pub parse_public_key : Bytes → Option (Bytes × Bytes)

pub data KeyError : Type 0 where
  bad_settings no_binary bad_content no_attachment bad_key no_signer no_block no_blob : KeyError

module _ {R S : Type 0} (formats : Formats R S) where
  unfoldable pub public_only : Bytes → Bytes → Key S
  public_only kind blob = record {
    format = kind;
    blob = blob;
    comment = [];
    signer = none;
    entry_uuid = [];
    db_uuid = [];
  }

  unfoldable pub parse_encrypted_key_public_only : Bytes → Result KeyError (Key S)
  unfolding public_only
  parse_encrypted_key_public_only content = elim (formats.pem_decode content) [
    | none ↦ err no_block
    | some block ↦
        if block.0 == codes "OPENSSH PRIVATE KEY"
        then elim (extract_public_blob block.1) [
          | none ↦ err no_blob
          | some blob ↦ elim (formats.parse_public_key blob) [
            | none ↦ err bad_key
            | some public ↦ ok (public_only public.0 public.1)
          ]
        ]
        else err no_block
  ]

  unfoldable pub with_signer : S → Key S
  with_signer s = record {
    format = formats.kind s;
    blob = formats.marshal s;
    comment = [];
    signer = some s;
    entry_uuid = [];
    db_uuid = [];
  }

  unfoldable pub key_of_raw : Bytes → Raw R → Result KeyError (Key S)
  unfolding with_signer
  key_of_raw content malformed = err bad_key
  key_of_raw content passphrase_missing = parse_encrypted_key_public_only content
  key_of_raw content (parsed r) = elim (formats.signer r) [
    | none ↦ err no_signer
    | some s ↦ ok (with_signer s)
  ]

  unfoldable pub parse_private_key : Bytes → Bytes → Result KeyError (Key S)
  parse_private_key content passphrase =
      let raw =
        if null passphrase
        then formats.parse_raw_private_key content
        else formats.parse_raw_private_key_with_passphrase content passphrase in
      key_of_raw content raw
