-- ===== src/Program/Identity.antt =====
-- cmd/ssh-chat/key.go and cmd/ssh-chat/cmd.go: the private keys that the server identifies itself
-- with.
use ssh_chat.Prelude.{
  if◌then◌else◌, ite, Option, none, some, List, [], ◌∷◌, ◌++◌, Text, codes, text_discrete,
  has_prefix, replace_first, Result, ok, err,
}

-- The errors of `ssh.ParsePrivateKey`: `*ssh.PassphraseMissingError`, and others.
pub data PrivateKeyError : Type 0 where
  passphrase_missing unparsable : PrivateKeyError

pub data IdentityError : Type 0 where
  unreadable no_terminal : IdentityError
  rejected : PrivateKeyError → IdentityError

-- What is asked of the machine and of package ssh: the home of the user, the file at a path, the
-- parsers of private keys, the variable IDENTITY_PASSPHRASE (empty if it is not set), and what
-- `term.ReadPassword` reads.
pub record Keyring : Type 1 where
  pub Signer : Type 0
  pub home : Option Text
  pub read_file : Text → Option Text
  pub parse_private_key : Text → Result PrivateKeyError Signer
  pub parse_with_passphrase : Text → Text → Result PrivateKeyError Signer
  pub identity_passphrase : Text
  pub typed_passphrase : Option Text

module _ (k : Keyring) where
  open k use {Signer, home, read_file, parse_private_key, parse_with_passphrase}

  -- The passphrase of the environment, or else the one that is typed.
  unfoldable pub ask_passphrase : Option Text
  ask_passphrase =
      ite (text_discrete k.identity_passphrase []) k.typed_passphrase (some k.identity_passphrase)

  unfoldable pub unlock : Text → Result IdentityError Signer
  unfolding ask_passphrase
  unlock private_key = elim ask_passphrase [
    | none ↦ err no_terminal
    | some passphrase ↦ elim (parse_with_passphrase private_key passphrase) [
      | ok signer ↦ ok signer
      | err e ↦ err (rejected e)
    ]
  ]

  unfoldable pub read_private_key : Text → Result IdentityError Signer
  unfolding unlock
  read_private_key path = elim (read_file path) [
    | none ↦ err unreadable
    | some private_key ↦ elim (parse_private_key private_key) [
      | ok signer ↦ ok signer
      | err passphrase_missing ↦ unlock private_key
      | err unparsable ↦ err (rejected unparsable)
    ]
  ]

  -- The path with `~` as the home of the user, if that is known.
  unfoldable pub expand_home : Text → Text
  expand_home path =
      if has_prefix path (codes "~/")
      then elim home [ none ↦ path | some dir ↦ replace_first path (codes "~") dir ]
      else path

  -- `config.AddHostKey` for each of the identities, up to the first that fails.
  unfoldable pub add_identities : List Signer → List Text → Result IdentityError (List Signer)
  unfolding read_private_key expand_home
  add_identities signers [] = ok signers
  add_identities signers (path ∷ paths) = elim (read_private_key (expand_home path)) [
    | err e ↦ err e
    | ok signer ↦ add_identities (signers ++ signer ∷ []) paths
  ]
