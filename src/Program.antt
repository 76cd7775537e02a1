-- ===== src/Program.antt =====
-- cmd/ssh-chat/cmd.go: `main`, which makes the server from the options of its command line. The
-- parser of package flags gives the options, and none for an error or a call for help. The reading
-- of files, the socket and the parsers of keys are parameters; one reading of the clock stands for
-- all of the start. The profiling server and what is printed are left out.
pub mod Loader
pub mod Identity
pub mod Motd
pub mod Listed
pub mod Loading
pub mod Started
pub mod Lines
pub mod Access
mod Tests
use ssh_chat.Prelude.{
  ℕ, ◌-◌, Bool, true, false, not, leb, if◌then◌else◌, ite, Option, none, some, List, [], ◌∷◌,
  length, get_or, Text, codes, text_discrete, Result, ok, err, ◌>>=◌, ◌>>◌, fail_unless,
}
use ssh_chat.Auth.{
  Externals, Auth, AuthError, KeyLoader, new_auth, set_passphrase, load_ops, load_allowlist,
  set_allowlist_mode,
}
use ssh_chat.Theme.{no_theme, themes}
use ssh_chat.Room.{set_logging}
use ssh_chat.Host.{Host, Stores, new_host, set_theme, set_motd}
use ssh_chat.Program.Loader.{KeyError, loader_from_file}
use ssh_chat.Program.Identity.{Keyring, add_identities}
use ssh_chat.Program.Motd.{normalize_ends}

-- `Options`, but for `Pprof`.
pub record Options : Type 0 where
  pub admin : Text
  pub bind : Text
  pub identity : List Text
  pub log : Text
  pub motd : Text
  pub verbose : List Bool
  pub show_version : Bool
  pub allowlist : Text
  pub whitelist : Text
  pub passphrase : Text

pub data LogLevel : Type 0 where
  warning info debug : LogLevel

-- `logLevels`.
abbrev pub log_levels : List LogLevel
log_levels = warning ∷ info ∷ debug ∷ []

-- The number of times that the option is given, at most the last index.
unfoldable pub log_level : List Bool → LogLevel
log_level verbose =
    let given = length verbose in
    let index = if leb (length log_levels) given then length log_levels - 1 else given in
    get_or log_levels index debug

-- How `main` ends without serving: after the usage or the version is printed, or by `fail`.
pub data Stop : Type 0 where
  usage version_printed : Stop
  failed : ℕ → Stop

-- An error ends the program with the code.
abbrev or_fail : {E A : Type 0} → ℕ → Result E A → Result Stop A
or_fail code (ok a) = ok a
or_fail code (err e) = err (failed code)

module _ (x : Externals) where
  -- What is asked of the machine and of package ssh.
  pub record Machine : Type 1 where
    pub keyring : Keyring
    -- What can be read of the file at a path, at a time.
    pub read_file : ℕ → Text → Option Text
    pub parse_authorized_key : Text → Result KeyError x.PublicKey
    -- Whether a socket can be opened at an address, and a log file at a path.
    pub listens : Text → Bool
    pub opens_log : Text → Bool

  module _ (m : Machine) where
    -- What `main` serves: the host, the keys that identify it, and the level of the log.
    pub record Server : Type 0 where
      pub signers : List m.keyring.Signer
      pub host : Host x
      pub level : LogLevel

    abbrev with_auth : Host x → Auth x → Host x
    with_auth h a = record h { auth = a }

    -- A call on the host's `Auth` that may fail with the code.
    abbrev loaded : ℕ → Host x → Auth x × Option AuthError → Result Stop (Host x)
    loaded code h (a, none) = ok (with_auth h a)
    loaded code h (a, some e) = err (failed code)

    -- `loaderFromFile` at a path.
    abbrev pub loader : Text → Option (KeyLoader x)
    loader path = loader_from_file x m.read_file m.parse_authorized_key path

    -- The old name of the option counts if the new one is not given.
    unfoldable pub allowlist_path : Options → Text
    allowlist_path o = ite (text_discrete o.allowlist []) o.whitelist o.allowlist

    -- The passphrase, the operators and the allowlist.
    unfoldable pub load_access : ℕ → Options → Host x → Result Stop (Host x)
    unfolding allowlist_path set_passphrase load_ops load_allowlist set_allowlist_mode
        loader_from_file
    load_access now o h = do
      let protected : Auth x =
          ite (text_discrete o.passphrase []) h.auth (set_passphrase x h.auth o.passphrase)
      h1 ← loaded 5 h (load_ops x now protected (loader o.admin))
      h2 ← loaded 6 h1 (load_allowlist x now h1.auth (loader (allowlist_path o)))
      ok (
          with_auth h2
            (set_allowlist_mode x h2.auth (ite (text_discrete (allowlist_path o) []) false true)))

    -- `GetMOTD`, for the path of the option.
    unfoldable pub read_motd : Text → ℕ → Result Text Text
    unfolding normalize_ends
    read_motd path now = elim (m.read_file now path) [
      | none ↦ err []
      | some motd ↦ ok (normalize_ends motd)
    ]

    unfoldable pub load_motd : ℕ → Options → Host x → Result Stop (Host x)
    unfolding read_motd set_motd
    load_motd now o h = ite (text_discrete o.motd []) (ok h) (do
      text ← or_fail 7 (read_motd o.motd now)
      ok (set_motd x (record h { get_motd = some (read_motd o.motd) }) text))

    abbrev logging : Host x → Host x
    logging h = record h { world = record h.world { room = set_logging h.world.room } }

    -- To standard output, or to a file.
    unfoldable pub load_log : Options → Host x → Result Stop (Host x)
    unfolding set_logging
    load_log o h = ite (text_discrete o.log []) (ok h) (
        ite (text_discrete o.log (codes "-")) (ok (logging h))
          (do fail_unless (failed 8) (m.opens_log o.log); ok (logging h)))

    -- The host before its options.
    unfoldable pub plain_host : Stores x → ℕ → Text → Host x
    unfolding new_host new_auth set_theme
    plain_host stores now version =
        let h = set_theme x (new_host x stores now (new_auth x)) (get_or themes 0 no_theme) in
        record h { version = version }

    -- `main` of a build with a version.
    unfoldable pub main : Stores x → ℕ → Text → Option Options → Result Stop Server
    unfolding log_level add_identities plain_host load_access load_motd load_log
    main stores now version none = err usage
    main stores now version (some o) = do
      fail_unless version_printed (not o.show_version)
      signers ← or_fail 3 (add_identities m.keyring [] o.identity)
      fail_unless (failed 4) (m.listens o.bind)
      h1 ← load_access now o (plain_host stores now version)
      h2 ← load_motd now o h1
      h3 ← load_log o h2
      ok (record { signers = signers; host = h3; level = log_level o.verbose })
