-- ===== src/Auth.antt =====
-- auth.go: bans, the allowlist, operators and the passphrase. The clock's reading `now` is an
-- argument of what consults or sets an expiry. Logging is left out.
pub mod Query
pub mod Checks
pub mod Handshake
mod Tests
use ssh_chat.Prelude.{
  ℕ, zero, Bool, true, false, not, ◌&&◌, ◌||◌, if◌then◌else◌, ite, Option, none, some, List, [],
  ◌∷◌, ◌++◌, Text, codes, text_discrete, Result, ok, err,
}
use ssh_chat.Prelude.Int.{ℤ, pos, negsuc}
use ssh_chat.Set.{Set, Item, string_item, expire, is_in, each}
use ssh_chat.Set

-- What the code takes from elsewhere: the public keys of golang.org/x/crypto/ssh with their wire
-- form, SHA-256, base 64, the host part of `net.SplitHostPort` (empty on an error), the parsers of
-- package net and package time, and the Unicode part of `strings.ToLower`. An address is given by
-- its `String()`.
pub record Externals : Type 1 where
  pub PublicKey : Type 0
  pub marshal : PublicKey → Text
  pub sha256 : Text → Text
  pub base64 : Text → Text
  pub split_host : Text → Text
  pub IpAddress : Type 0
  -- `net.ParseIP`, which returns nil for a text that is no address.
  pub parse_ip : Text → Option IpAddress
  -- `IP.String`, at nil too, and `TCPAddr.String` of the address with no port.
  pub ip_string : Option IpAddress → Text
  pub tcp_string : Option IpAddress → Text
  pub parse_duration : Text → Option ℤ
  -- The reader of package csv with a space for the comma: the first field and the others.
  pub read_csv : Text → Option (Text × List Text)
  pub lower_beyond : Text → Text

pub data AuthError : Type 0 where
  not_allowed banned_error incorrect_passphrase passphrases_not_accepted : AuthError
  no_passphrase key_required challenge_failed : AuthError
  invalid_csv invalid_duration invalid_query invalid_ip unknown_field loader_failed : AuthError

abbrev pub KeySet : Type 0
KeySet = Set (Unit {0})

module _ (x : Externals) where
  open x use {
    PublicKey, marshal, sha256, base64, split_host, parse_ip, ip_string, tcp_string, parse_duration,
    IpAddress,
  }

  -- A `KeyLoader`, as a function of the time of its call. A nil key is `none`.
  abbrev pub KeyLoader : Type 0
  KeyLoader = ℕ → List (Option PublicKey) × Option AuthError

  pub record Auth : Type 0 where
    pub passphrase_hash : Option Text
    pub banned_addr : KeySet
    pub banned_client : KeySet
    pub banned : KeySet
    pub allowlist : KeySet
    pub ops : KeySet
    pub allowlist_mode : Bool
    pub op_loader : Option KeyLoader
    pub allowlist_loader : Option KeyLoader

  -- `sshd.Fingerprint`.
  unfoldable pub fingerprint : PublicKey → Text
  fingerprint k = codes "SHA256:" ++ base64 (sha256 (marshal k))

  unfoldable pub new_auth_key : Option PublicKey → Text
  unfolding fingerprint
  new_auth_key none = []
  new_auth_key (some k) = fingerprint k

  unfoldable pub new_auth_addr : Option Text → Text
  new_auth_addr none = []
  new_auth_addr (some addr) = split_host addr

  unfoldable pub new_auth : Auth
  new_auth = record {
    passphrase_hash = none;
    banned_addr = Set.new x.lower_beyond;
    banned_client = Set.new x.lower_beyond;
    banned = Set.new x.lower_beyond;
    allowlist = Set.new x.lower_beyond;
    ops = Set.new x.lower_beyond;
    allowlist_mode = false;
    op_loader = none;
    allowlist_loader = none;
  }

  unfoldable pub set_allowlist_mode : Auth → Bool → Auth
  set_allowlist_mode a value = record a { allowlist_mode = value }

  unfoldable pub set_passphrase : Auth → Text → Auth
  set_passphrase a p = record a {
    passphrase_hash = ite (text_discrete p []) none (some (sha256 p));
  }

  unfoldable pub accept_passphrase : Auth → Bool
  accept_passphrase a = elim a.passphrase_hash [ none ↦ false | some h ↦ true ]

  unfoldable pub allow_anonymous : Auth → Bool
  unfolding accept_passphrase
  allow_anonymous a = not a.allowlist_mode && not (accept_passphrase a)

  unfoldable pub is_op : ℕ → Auth → Option PublicKey → Auth × Bool
  is_op now a key =
      let (ops, op) = is_in now a.ops (new_auth_key key) in (record a { ops = ops }, op)

  -- The three lookups of `CheckBans`, each made only if those before it found nothing.
  unfoldable pub check_key_ban : ℕ → Auth → Option PublicKey → Auth × Bool
  check_key_ban now a key =
      ite (text_discrete (new_auth_key key) []) (a, false)
        (let (s, b) = is_in now a.banned (new_auth_key key) in (record a { banned = s }, b))

  unfoldable pub check_addr_ban : ℕ → Auth × Bool → Option Text → Auth × Bool
  check_addr_ban now (a, b) addr =
      if b
      then (a, true)
      else (let (s, b') = is_in now a.banned_addr (new_auth_addr addr) in
          (record a { banned_addr = s }, b'))

  unfoldable pub check_client_ban : ℕ → Auth × Bool → Text → Auth × Bool
  check_client_ban now (a, b) client =
      if b
      then (a, true)
      else (let (s, b') = is_in now a.banned_client client in (record a { banned_client = s }, b'))

  -- Operators pass: `banned && !a.IsOp(key)`.
  unfoldable pub refuse_banned : ℕ → Auth × Bool → Option PublicKey → Auth × Option AuthError
  unfolding is_op
  refuse_banned now (a, b) key =
      if b
      then (let (a', op) = is_op now a key in (a', if op then none else some banned_error))
      else (a, none)

  unfoldable pub check_bans :
      ℕ → Auth → Option Text → Option PublicKey → Text → Auth × Option AuthError
  unfolding check_key_ban check_addr_ban check_client_ban refuse_banned
  check_bans now a addr key client =
      refuse_banned now
        (check_client_ban now (check_addr_ban now (check_key_ban now a key) addr) client) key

  -- `CheckPublicKey`.
  unfoldable pub check_public_key : ℕ → Auth → Option PublicKey → Auth × Option AuthError
  unfolding allow_anonymous is_op
  check_public_key now a key =
      let (s, allowlisted) = is_in now a.allowlist (new_auth_key key) in
      let a' = record a { allowlist = s } in
      if allow_anonymous a' || allowlisted
      then (a', none)
      else (let (a'', op) = is_op now a' key in (a'', if op then none else some not_allowed))

  unfoldable pub check_passphrase : Auth → Text → Option AuthError
  unfolding accept_passphrase
  check_passphrase a p = elim a.passphrase_hash [
    | none ↦ some passphrases_not_accepted
    | some h ↦ ite (text_discrete (sha256 p) h) none (some incorrect_passphrase)
  ]

  -- `if d != 0 { Set(Expire(item, d)) } else { Set(item) }`.
  unfoldable pub set_for : ℕ → KeySet → Text → ℤ → KeySet
  unfolding Set.set
  set_for now s k (pos zero) = (Set.set s (string_item k)).0
  set_for now s k d = (Set.set s (expire now (string_item k) d)).0

  unfoldable pub op : ℕ → Auth → Option PublicKey → ℤ → Auth
  op now a none d = a
  op now a (some k) d = record a { ops = set_for now a.ops (new_auth_key (some k)) d }

  -- `Allowlist`.
  unfoldable pub allow : ℕ → Auth → Option PublicKey → ℤ → Auth
  allow now a none d = a
  allow now a (some k) d = record a {
    allowlist = set_for now a.allowlist (new_auth_key (some k)) d;
  }

  unfoldable pub ban_fingerprint : ℕ → Auth → Text → ℤ → Auth
  ban_fingerprint now a authkey d = record a { banned = set_for now a.banned authkey d }

  unfoldable pub ban : ℕ → Auth → Option PublicKey → ℤ → Auth
  unfolding ban_fingerprint
  ban now a none d = a
  ban now a (some k) d = ban_fingerprint now a (new_auth_key (some k)) d

  unfoldable pub ban_client : ℕ → Auth → Text → ℤ → Auth
  ban_client now a client d = record a { banned_client = set_for now a.banned_client client d }

  unfoldable pub ban_addr : ℕ → Auth → Option Text → ℤ → Auth
  ban_addr now a addr d = record a {
    banned_addr = set_for now a.banned_addr (new_auth_addr addr) d;
  }

  -- The loop of `addFromLoader`.
  unfoldable pub add_keys :
      (Auth → Option PublicKey → ℤ → Auth) → Auth → List (Option PublicKey) → Auth
  add_keys adder a [] = a
  add_keys adder a (k ∷ ks) = add_keys adder (adder a k (pos 0)) ks

  unfoldable pub add_from_loader :
      ℕ → Option KeyLoader → (Auth → Option PublicKey → ℤ → Auth) → Auth → Auth × Option AuthError
  unfolding add_keys
  add_from_loader now none adder a = (a, none)
  add_from_loader now (some loader) adder a =
      let (keys, e) = loader now in (add_keys adder a keys, e)

  unfoldable pub reload_ops : ℕ → Auth → Auth × Option AuthError
  unfolding add_from_loader op
  reload_ops now a = add_from_loader now a.op_loader (op now) a

  -- A nil loader, `none`, is saved too.
  unfoldable pub load_ops : ℕ → Auth → Option KeyLoader → Auth × Option AuthError
  unfolding reload_ops
  load_ops now a loader = reload_ops now (record a { op_loader = loader })

  unfoldable pub reload_allowlist : ℕ → Auth → Auth × Option AuthError
  unfolding add_from_loader allow
  reload_allowlist now a = add_from_loader now a.allowlist_loader (allow now) a

  unfoldable pub load_allowlist : ℕ → Auth → Option KeyLoader → Auth × Option AuthError
  unfolding reload_allowlist
  load_allowlist now a loader = reload_allowlist now (record a { allowlist_loader = loader })

  -- The callbacks of `Banned` collect the keys.
  abbrev collect : Text → Item (Unit {0}) → List Text → List Text × Option (Unit {0})
  collect k it r = (r ++ k ∷ [], none)

  unfoldable pub banned_keys : ℕ → Auth → Auth × List Text × List Text × List Text
  banned_keys now a =
      let f = each collect now a.banned [] in
      let i = each collect now a.banned_addr [] in
      let c = each collect now a.banned_client [] in
      (record a { banned = f.0; banned_addr = i.0; banned_client = c.0 }, i.1, f.1, c.1)
