-- ===== src/Program/Loading.antt =====
-- The authentication lists after the loading of their files.
use ssh_chat.Prelude.{
  ℕ, ◌≡◌, refl, ap, ◌∙◌, Bool, true, false, ◌||◌, ite, Option, none, some, List, [], Text,
  text_discrete, after, ok, arith, to_lower, lookup,
}
use ssh_chat.Prelude.Int.{pos}
use ssh_chat.Set.{found}
use ssh_chat.Set
use ssh_chat.Auth.{
  Externals, KeySet, Auth, AuthError, KeyLoader, set_passphrase, op, allow, add_keys, load_ops,
  load_allowlist,
}
use ssh_chat.Auth.Checks.{holds}
use ssh_chat.Host.{Host}
use ssh_chat.Program.{Machine, Options, loader, allowlist_path, loaded}
use ssh_chat.Program.Listed.{
  listed, keys_of, add_keys_keeps, add_keys-holds, load_ops-after, load_allowlist-after,
}

abbrev pub is_empty : Text → Bool
is_empty s = ite (text_discrete s []) true false

module _ (x : Externals) where
  abbrev pub norm : Text → Text
  norm = to_lower x.lower_beyond

  op_keys :
      (now later : ℕ) (a : Auth x) (ks : List (Option x.PublicKey)) (j : Text)
      → a.ops.normalize ≡ norm
      → holds later (add_keys x (op x now) a ks).ops j ≡ (holds later a.ops j || listed x norm j ks)
  unfolding op
  op_keys now later a ks j n =
      add_keys-holds x (λ b. b.ops) now (op x now) (λ b. refl) (λ b k. refl) later norm a ks j n

  allow_keys :
      (now later : ℕ) (a : Auth x) (ks : List (Option x.PublicKey)) (j : Text)
      → a.allowlist.normalize ≡ norm
      → holds later (add_keys x (allow x now) a ks).allowlist j
        ≡ (holds later a.allowlist j || listed x norm j ks)
  unfolding allow
  allow_keys now later a ks j n =
      add_keys-holds x (λ b. b.allowlist) now (allow x now) (λ b. refl) (λ b k. refl) later norm a
        ks j n

  -- What loading the operators leaves alone, and what loading the allowlist does, as records of the
  -- other fields that are consulted.
  abbrev but_ops : Auth x → Option Text × KeySet × KeySet × KeySet × KeySet
  but_ops a = (a.passphrase_hash, a.banned, a.banned_addr, a.banned_client, a.allowlist)

  abbrev but_allowlist : Auth x → Option Text × KeySet × KeySet × KeySet × KeySet
  but_allowlist a = (a.passphrase_hash, a.banned, a.banned_addr, a.banned_client, a.ops)

  op_keeps :
      (now : ℕ) (a : Auth x) (k : Option x.PublicKey) → but_ops (op x now a k (pos 0)) ≡ but_ops a
  unfolding op
  op_keeps now a none = refl
  op_keeps now a (some k) = refl

  allow_keeps :
      (now : ℕ) (a : Auth x) (k : Option x.PublicKey)
      → but_allowlist (allow x now a k (pos 0)) ≡ but_allowlist a
  unfolding allow
  allow_keeps now a none = refl
  allow_keeps now a (some k) = refl

  load_ops_keeps :
      (now : ℕ) (a : Auth x) (loader : Option (KeyLoader x))
      → but_ops (after (load_ops x now a loader)) ≡ but_ops a
  load_ops_keeps now a loader =
      ap but_ops (load_ops-after x now a loader)
      ∙ add_keys_keeps x but_ops (op x now) (op_keeps now) (record a { op_loader = loader })
          (keys_of x loader now)

  load_allowlist_keeps :
      (now : ℕ) (a : Auth x) (loader : Option (KeyLoader x))
      → but_allowlist (after (load_allowlist x now a loader)) ≡ but_allowlist a
  load_allowlist_keeps now a loader =
      ap but_allowlist (load_allowlist-after x now a loader)
      ∙ add_keys_keeps x but_allowlist (allow x now) (allow_keeps now)
          (record a { allowlist_loader = loader }) (keys_of x loader now)

  pub loaded_ok :
      (m : Machine x) (code : ℕ) (h h' : Host x) (r : Auth x × Option AuthError)
      → loaded x m code h r ≡ ok h'
      → h'.auth ≡ r.0
  loaded_ok m code h h' (a, none) e = ground (arith, e)
  loaded_ok m code h h' (a, some e') e = ground (arith, e)

  -- The authentication that nothing was loaded into.
  pub record Blank (a : Auth x) : Type 0 where
    pub hash : a.passphrase_hash ≡ none
    pub ops : a.ops ≡ Set.new x.lower_beyond
    pub allowlist : a.allowlist ≡ Set.new x.lower_beyond
    pub banned : a.banned ≡ Set.new x.lower_beyond
    pub banned_addr : a.banned_addr ≡ Set.new x.lower_beyond
    pub banned_client : a.banned_client ≡ Set.new x.lower_beyond

  pub holds-new : (later : ℕ) (j : Text) → holds later (Set.new x.lower_beyond) j ≡ false
  unfolding Set.new found lookup
  holds-new later j = refl

  abbrev pub protected : Options → Auth x → Auth x
  protected o a = ite (text_discrete o.passphrase []) a (set_passphrase x a o.passphrase)

  protected_hash :
      (o : Options) (a : Auth x)
      → a.passphrase_hash ≡ none
      → (protected o a).passphrase_hash
        ≡ ite (text_discrete o.passphrase []) none (some (x.sha256 o.passphrase))
  unfolding set_passphrase
  protected_hash o a e = ground (arith, e)

  ite_keeps :
      {B P : Type 0} (p : Auth x → B) (d : Dec P) (a b : Auth x) → p b ≡ p a → p (ite d a b) ≡ p a
  ite_keeps p (yes y) a b e = refl
  ite_keeps p (no n) a b e = e

  -- All but the hash.
  abbrev but_hash : Auth x → KeySet × KeySet × KeySet × KeySet × KeySet
  but_hash a = (a.ops, a.banned, a.banned_addr, a.banned_client, a.allowlist)

  protected_keeps : (o : Options) (a : Auth x) → but_hash (protected o a) ≡ but_hash a
  unfolding set_passphrase
  protected_keeps o a =
      ite_keeps but_hash (text_discrete o.passphrase []) a (set_passphrase x a o.passphrase) refl

  or_new :
      (later : ℕ) (s : KeySet) (j : Text) (b : Bool)
      → s ≡ Set.new x.lower_beyond
      → (holds later s j || b) ≡ b
  or_new later s j b e = rw (e, holds-new later j) refl

  new_normalize : (s : KeySet) → s ≡ Set.new x.lower_beyond → s.normalize ≡ norm
  unfolding Set.new
  new_normalize s e = rw e refl

  -- The authentication after the options of the command line.
  pub record Loaded (m : Machine x) (now : ℕ) (o : Options) (a : Auth x) : Type 0 where
    pub hash :
        a.passphrase_hash ≡ ite (text_discrete o.passphrase []) none (some (x.sha256 o.passphrase))
    pub operators :
        (later : ℕ) (j : Text)
        → holds later a.ops j ≡ listed x norm j (keys_of x (loader x m o.admin) now)
    pub allowed :
        (later : ℕ) (j : Text)
        → holds later a.allowlist j
          ≡ listed x norm j (keys_of x (loader x m (allowlist_path x m o)) now)
    pub banned : a.banned ≡ Set.new x.lower_beyond
    pub banned_addr : a.banned_addr ≡ Set.new x.lower_beyond
    pub banned_client : a.banned_client ≡ Set.new x.lower_beyond

  pub both-Loaded :
      (m : Machine x) (now : ℕ) (o : Options) (a q c : Auth x)
      → Blank a
      → q ≡ after (load_ops x now (protected o a) (loader x m o.admin))
      → c ≡ after (load_allowlist x now q (loader x m (allowlist_path x m o)))
      → Loaded m now o c
  both-Loaded m now o a q c b eq ec =
      let p = protected o a in
      let lo = loader x m o.admin in
      let la = loader x m (allowlist_path x m o) in
      let kp = protected_keeps o a in
      let kq = ap but_ops eq ∙ load_ops_keeps now p lo in
      let kc = ap but_allowlist ec ∙ load_allowlist_keeps now q la in
      let p_ops = ap (λ r. r.0) kp ∙ b.ops in
      let q_list = ap (λ r. r.4) kq ∙ ap (λ r. r.4) kp ∙ b.allowlist in
      record {
        hash = ap (λ r. r.0) kc ∙ ap (λ r. r.0) kq ∙ protected_hash o a b.hash;
        banned = ap (λ r. r.1) kc ∙ ap (λ r. r.1) kq ∙ ap (λ r. r.1) kp ∙ b.banned;
        banned_addr = ap (λ r. r.2) kc ∙ ap (λ r. r.2) kq ∙ ap (λ r. r.2) kp ∙ b.banned_addr;
        banned_client = ap (λ r. r.3) kc ∙ ap (λ r. r.3) kq ∙ ap (λ r. r.3) kp ∙ b.banned_client;
        operators = λ later j.
            ap (λ r. holds later r.4 j) kc
            ∙ ap (λ (d : Auth x). holds later d.ops j) (eq ∙ load_ops-after x now p lo)
            ∙ op_keys now later (record p { op_loader = lo }) (keys_of x lo now) j
                (new_normalize p.ops p_ops)
            ∙ or_new later p.ops j (listed x norm j (keys_of x lo now)) p_ops;
        allowed = λ later j.
            ap (λ (d : Auth x). holds later d.allowlist j) (ec ∙ load_allowlist-after x now q la)
            ∙ allow_keys now later (record q { allowlist_loader = la }) (keys_of x la now) j
                (new_normalize q.allowlist q_list)
            ∙ or_new later q.allowlist j (listed x norm j (keys_of x la now)) q_list;
      }
