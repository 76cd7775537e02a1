-- ===== src/Program/Access.antt =====
-- Who gets in to a server that has just started: `main` together with the callbacks of the
-- handshake.
use ssh_chat.Prelude.{
  ℕ, ◌≡◌, refl, ap, ◌∙◌, Bool, true, false, ◌&&◌, ◌||◌, if◌then◌else◌, ite, Option, none, some, [],
  Text, text_discrete, result, ok, err, arith,
}
use ssh_chat.Set.{found}
use ssh_chat.Set
use ssh_chat.Sanitize.{data_text}
use ssh_chat.Auth.{
  Externals, Auth, not_allowed, new_auth_key, set_allowlist_mode, allow_anonymous, new_auth_addr,
  accept_passphrase,
}
use ssh_chat.Auth.Checks.{is_banned, is_operator}
use ssh_chat.Auth.Handshake.{public_key_callback, auth_ops}
use ssh_chat.Auth.Handshake.Access.{public_key_login}
use ssh_chat.Host.{Stores}
use ssh_chat.Program.{Machine, Options, Server, loader, allowlist_path, main}
use ssh_chat.Program.Loading.{is_empty, norm, Loaded, holds-new}
use ssh_chat.Program.Started.{Served, main-Served}
use ssh_chat.Program.Listed.{listed, keys_of}

module _ (x : Externals) where
  banned_none :
      (later : ℕ) (a : Auth x) (addr : Option Text) (k : Option x.PublicKey) (client : Text)
      → a.banned ≡ Set.new x.lower_beyond
      → a.banned_addr ≡ Set.new x.lower_beyond
      → a.banned_client ≡ Set.new x.lower_beyond
      → is_banned x later a addr k client ≡ false
  unfolding is_banned
  banned_none later a addr k client e f g =
      rw
        (
          e,
          f,
          g,
          holds-new x later (new_auth_key x k),
          holds-new x later (new_auth_addr x addr),
          holds-new x later client,
        )
        (ground arith)

  anonymous_lem :
      (c : Auth x) (path passphrase : Text)
      → c.passphrase_hash ≡ ite (text_discrete passphrase []) none (some (x.sha256 passphrase))
      → allow_anonymous x (set_allowlist_mode x c (ite (text_discrete path []) false true))
        ≡ (is_empty path && is_empty passphrase)
  unfolding allow_anonymous set_allowlist_mode accept_passphrase
  anonymous_lem c path passphrase e = ground (arith, e)

  -- The decision on a key, of an authentication that is served.
  login_lem :
      (m : Machine x) (now : ℕ) (o : Options) (c : Auth x) (later : ℕ) (addr : Option Text)
      (k : x.PublicKey) (client : Text)
      → Loaded x m now o c
      → result (
          public_key_callback
            (auth_ops x)
            x.marshal
            later
            (set_allowlist_mode x c (ite (text_discrete (allowlist_path x m o) []) false true))
            addr
            k
            client)
        ≡ (if (is_empty (allowlist_path x m o) && is_empty o.passphrase)
              || listed x
                  (norm x)
                  (new_auth_key x (some k))
                  (keys_of x (loader x m (allowlist_path x m o)) now)
              || listed x (norm x) (new_auth_key x (some k)) (keys_of x (loader x m o.admin) now)
            then ok (x.marshal k)
            else err not_allowed)
  unfolding is_operator set_allowlist_mode
  login_lem m now o c later addr k client l =
      let a = set_allowlist_mode x c (ite (text_discrete (allowlist_path x m o) []) false true) in
      public_key_login x later a addr k client
      ∙ rw
          (
            banned_none later a addr (some k) (data_text client 64) l.banned l.banned_addr
                l.banned_client,
            anonymous_lem c (allowlist_path x m o) o.passphrase l.hash,
            l.allowed later (new_auth_key x (some k)),
            l.operators later (new_auth_key x (some k)),
          )
          refl

  -- A key of one of the two files: the operators' and the allowlist.
  abbrev pub in_file : Machine x → Text → ℕ → x.PublicKey → Bool
  in_file m path now k =
      listed x (norm x) (new_auth_key x (some k)) (keys_of x (loader x m path) now)

  Served-login :
      (m : Machine x) (now : ℕ) (o : Options) (a : Auth x) (later : ℕ) (addr : Option Text)
      (k : x.PublicKey) (client : Text)
      → Served x m now o a
      → result (public_key_callback (auth_ops x) x.marshal later a addr k client) ≡ (
          if (is_empty (allowlist_path x m o) && is_empty o.passphrase)
            || in_file m (allowlist_path x m o) now k
            || in_file m o.admin now k
          then ok (x.marshal k)
          else err not_allowed)
  unfolding Served
  Served-login m now o a later addr k client (c, l, same) =
      ap (λ (d : Auth x). result (public_key_callback (auth_ops x) x.marshal later d addr k client))
        same
      ∙ login_lem m now o c later addr k client l

  -- A server that has just started bans nobody, and a client logs in with its key, at any time,
  -- exactly when there is neither an allowlist nor a passphrase in the options, or a key with the
  -- same fingerprint, up to the case of its letters, is in the file of the allowlist or in that of
  -- the operators, as they were read at the start. The old name of the option of the allowlist
  -- counts if the new one is not given.
  pub main-login :
      (m : Machine x) (stores : Stores x) (now : ℕ) (version : Text) (o : Options) (s : Server x m)
      (later : ℕ) (addr : Option Text) (k : x.PublicKey) (client : Text)
      → main x m stores now version (some o) ≡ ok s
      → result (public_key_callback (auth_ops x) x.marshal later s.host.auth addr k client) ≡ (
          if (is_empty (allowlist_path x m o) && is_empty o.passphrase)
            || in_file m (allowlist_path x m o) now k
            || in_file m o.admin now k
          then ok (x.marshal k)
          else err not_allowed)
  main-login m stores now version o s later addr k client e =
      Served-login m now o s.host.auth later addr k client
        (main-Served x m stores now version o s e)
