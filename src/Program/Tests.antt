-- ===== src/Program/Tests.antt =====
-- A server that is started with a file of operators, a file of allowed keys and a message of the
-- day.
use ssh_chat.Prelude.{
  ℕ, ◌≡◌, ◌≢◌, refl, inl, true, false, ite, Option, none, some, List, [], ◌∷◌, Text, codes,
  text_discrete, Result, ok, err, result, arith, has_suffix, has_prefix, to_lower, replace_first,
  if◌then◌else◌, ◌||◌, ◌&&◌,
}
use ssh_chat.Auth.{
  Externals, not_allowed, new_auth_key, fingerprint, load_ops, load_allowlist, reload_ops,
  reload_allowlist, add_from_loader, set_passphrase,
}
use ssh_chat.Auth.Handshake.{public_key_callback, auth_ops}
use ssh_chat.User.{new_user}
use ssh_chat.Host.{Stores}
use ssh_chat.Program.{
  Machine, Options, Server, Stop, allowlist_path, plain_host, main, debug, load_access, load_motd,
  read_motd, load_log,
}
use ssh_chat.Program.Loader.{
  KeyError, no_key_found, loader_from_file, collect_keys, scan_lines, scan_from, drop_cr,
}
use ssh_chat.Program.Identity.{Keyring, add_identities, read_private_key, expand_home}
use ssh_chat.Program.Motd.{normalize_ends, ends_crlf, normalize_ends_lem}
use ssh_chat.Program.Lines.{IsLine, keys_loaded, all_keys, loader_from_file-keys}
use ssh_chat.Program.Loading.{is_empty}
use ssh_chat.Program.Access.{in_file, main-login}

-- Keys are texts.
abbrev outer : Externals
outer = record {
  PublicKey = Text;
  marshal = λ k. k;
  sha256 = λ s. s;
  base64 = λ s. s;
  split_host = λ s. s;
  IpAddress = Text;
  parse_ip = λ s. some s;
  ip_string = λ ip. elim ip [ none ↦ codes "<nil>" | some s ↦ s ];
  tcp_string = λ ip. elim ip [ none ↦ codes ":0" | some s ↦ s ];
  parse_duration = λ s. none;
  read_csv = λ s. some (s, []);
  lower_beyond = λ s. s;
}

abbrev files : Text → Option Text
files path = ite (text_discrete path (codes "admins")) (some (codes "root\n")) (
    ite (text_discrete path (codes "allowed")) (some (codes "# friends\nann\r\nbob"))
      (ite (text_discrete path (codes "motd")) (some (codes "hello\nthere\r\n")) none))

-- A line with a mark in front has no key.
abbrev parse_key : Text → Result KeyError Text
parse_key line = if has_prefix line (codes "#") then err no_key_found else ok line

abbrev keyring : Keyring
keyring = record {
  Signer = Text;
  home = some (codes "/root");
  read_file = λ path. some path;
  parse_private_key = λ s. ok s;
  parse_with_passphrase = λ s p. ok s;
  identity_passphrase = [];
  typed_passphrase = none;
}

abbrev machine : Machine outer
machine = record {
  keyring = keyring;
  read_file = λ now path. files path;
  parse_authorized_key = parse_key;
  listens = λ addr. true;
  opens_log = λ path. true;
}

abbrev options : Options
options = record {
  admin = codes "admins";
  bind = codes "0.0.0.0:2022";
  identity = codes "~/.ssh/id_rsa" ∷ [];
  log = [];
  motd = codes "motd";
  verbose = true ∷ [];
  show_version = false;
  allowlist = [];
  whitelist = codes "allowed";
  passphrase = [];
}

abbrev stores : Stores outer
stores = record {
  users = λ u. new_user (λ s. s) 0 0 [];
  member = λ p. record { user = 0; is_op = false; is_muted = false };
  conn = λ u. record { name = []; public_key = none; remote_addr = []; client_version = [] };
}

abbrev started : Result Stop (Server outer machine)
started = main outer machine stores 9 (codes "1") (some options)

abbrev server_or : Result Stop (Server outer machine) → Server outer machine
server_or (ok s) = s
server_or (err e) = record {
  signers = [];
  host = plain_host outer machine stores 0 [];
  level = debug;
}

starts : started ≡ ok (server_or started)
unfolding main add_identities read_private_key expand_home load_access loader_from_file collect_keys
    scan_lines scan_from drop_cr has_suffix load_ops load_allowlist reload_ops reload_allowlist
    add_from_loader load_motd read_motd load_log text_discrete has_prefix replace_first
    set_passphrase allowlist_path
starts = refl

main-login_example :
    result (
      public_key_callback
        (auth_ops outer)
        outer.marshal
        20
        (server_or started).host.auth
        none
        (codes "ann")
        (codes "SSH-2.0"))
    ≡ (if (is_empty (allowlist_path outer machine options) && is_empty options.passphrase)
          || in_file outer machine (allowlist_path outer machine options) 9 (codes "ann")
          || in_file outer machine options.admin 9 (codes "ann")
        then ok (codes "ann")
        else err not_allowed)
main-login_example =
    main-login outer machine stores 9 (codes "1") options (server_or started) 20 none (codes "ann")
      (codes "SSH-2.0") starts

-- Ann gets in, and Eve does not.
ann_listed : in_file outer machine (codes "allowed") 9 (codes "ann") ≡ true
unfolding loader_from_file collect_keys scan_lines scan_from drop_cr has_suffix has_prefix
    text_discrete to_lower new_auth_key fingerprint
ann_listed = refl

eve_not_listed : in_file outer machine (codes "allowed") 9 (codes "eve") ≡ false
unfolding loader_from_file collect_keys scan_lines scan_from drop_cr has_suffix has_prefix
    text_discrete to_lower new_auth_key fingerprint
eve_not_listed = refl

abbrev some_lines : List Text
some_lines = codes "ann" ∷ codes "# friends" ∷ []

abbrev two_lines : ℕ → Text → Option Text
two_lines now path = some (codes "ann\n# friends\n")

named : codes "file" ≢ []
named = ground arith

ann-IsLine : IsLine (codes "ann")
unfolding has_suffix has_prefix
ann-IsLine = record { no_end = refl; no_return = refl; short = omega arith }

friends-IsLine : IsLine (codes "# friends")
unfolding has_suffix has_prefix
friends-IsLine = record { no_end = refl; no_return = refl; short = omega arith }

loader_from_file-keys_example :
    keys_loaded outer parse_key (loader_from_file outer two_lines parse_key (codes "file")) 3
    ≡ all_keys outer parse_key some_lines
loader_from_file-keys_example =
    loader_from_file-keys outer parse_key two_lines (codes "file") 3 some_lines [] named
      (ann-IsLine, (friends-IsLine, tt)) (inl refl) refl

normalize_ends_lem_example :
    (ends_crlf false (normalize_ends (codes "a\nb\r\n")) ≡ true)
    × (normalize_ends (normalize_ends (codes "a\nb\r\n")) ≡ normalize_ends (codes "a\nb\r\n"))
normalize_ends_lem_example = normalize_ends_lem (codes "a\nb\r\n")
