-- ===== src/Program/Started.antt =====
-- The authentication lists of a server that has just started.
use ssh_chat.Prelude.{
  ℕ, ◌≡◌, refl, ◌∙◌, true, false, not, ite, some, [], Text, text_discrete, ok, >>=-ok, fail_unless,
  arith,
}
use ssh_chat.Auth.{Externals, Auth, new_auth, load_ops, load_allowlist, set_allowlist_mode}
use ssh_chat.Host.{Host, Stores, new_host, set_theme, set_motd}
use ssh_chat.Program.{
  Machine, Options, Server, loader, allowlist_path, load_access, load_motd, load_log, main,
  plain_host, loaded, or_fail, version_printed, failed,
}
use ssh_chat.Program.Identity.{add_identities}
use ssh_chat.Program.Loading.{Loaded, Blank, protected, loaded_ok, both-Loaded}

module _ (x : Externals) where
  -- What loads the options, on the authentication that is served.
  unfoldable pub Served : Machine x → ℕ → Options → Auth x → Type 0
  Served m now o a =
      (c : Auth x) × Loaded x m now o c
      × (a ≡ set_allowlist_mode x c (ite (text_discrete (allowlist_path x m o) []) false true))

  load_access-Served :
      (m : Machine x) (now : ℕ) (o : Options) (h h' : Host x)
      → Blank x h.auth
      → load_access x m now o h ≡ ok h'
      → Served m now o h'.auth
  unfolding load_access Served
  load_access-Served m now o h h' b e =
      let r1 = load_ops x now (protected x o h.auth) (loader x m o.admin) in
      let (h1, e1, rest1) = >>=-ok (loaded x m 5 h r1) _ e in
      let r2 = load_allowlist x now h1.auth (loader x m (allowlist_path x m o)) in
      let (h2, e2, rest2) = >>=-ok (loaded x m 6 h1 r2) _ rest1 in
      let a1 = loaded_ok x m 5 h h1 r1 e1 in
      let a2 = loaded_ok x m 6 h1 h2 r2 e2 in
      (h2.auth, both-Loaded x m now o h.auth h1.auth h2.auth b a1 a2, ground (arith, rest2))

  load_motd-auth :
      (m : Machine x) (now : ℕ) (o : Options) (h h' : Host x)
      → load_motd x m now o h ≡ ok h'
      → h'.auth ≡ h.auth
  unfolding load_motd set_motd
  load_motd-auth m now o h h' e = ground (arith, e)

  load_log-auth :
      (m : Machine x) (o : Options) (h h' : Host x) → load_log x m o h ≡ ok h' → h'.auth ≡ h.auth
  unfolding load_log
  load_log-auth m o h h' e = ground (arith, e)

  plain_host-Blank :
      (m : Machine x) (stores : Stores x) (now : ℕ) (version : Text)
      → Blank x (plain_host x m stores now version).auth
  unfolding plain_host new_host set_theme new_auth
  plain_host-Blank m stores now version = record {
    hash = refl;
    ops = refl;
    allowlist = refl;
    banned = refl;
    banned_addr = refl;
    banned_client = refl;
  }

  Served-same :
      (m : Machine x) (now : ℕ) (o : Options) (a b : Auth x)
      → b ≡ a
      → Served m now o a
      → Served m now o b
  unfolding Served
  Served-same m now o a b e (c, l, same) = (c, l, e ∙ same)

  pub main-Served :
      (m : Machine x) (stores : Stores x) (now : ℕ) (version : Text) (o : Options) (s : Server x m)
      → main x m stores now version (some o) ≡ ok s
      → Served m now o s.host.auth
  unfolding main
  main-Served m stores now version o s e =
      let (u, e0, r0) = >>=-ok (fail_unless version_printed (not o.show_version)) _ e in
      let (signers, e1, r1) = >>=-ok (or_fail 3 (add_identities m.keyring [] o.identity)) _ r0 in
      let (v, e2, r2) = >>=-ok (fail_unless (failed 4) (m.listens o.bind)) _ r1 in
      let (h1, e3, r3) = >>=-ok (load_access x m now o (plain_host x m stores now version)) _ r2 in
      let (h2, e4, r4) = >>=-ok (load_motd x m now o h1) _ r3 in
      let (h3, e5, r5) = >>=-ok (load_log x m o h2) _ r4 in
      let same : s.host.auth ≡ h1.auth =
        ground (arith, r5) ∙ load_log-auth m o h2 h3 e5 ∙ load_motd-auth m now o h1 h2 e4 in
      Served-same m now o h1.auth s.host.auth same (
        load_access-Served m now o (plain_host x m stores now version) h1
          (plain_host-Blank m stores now version) e3)
