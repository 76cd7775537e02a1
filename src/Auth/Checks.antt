-- ===== src/Auth/Checks.antt =====
-- What the checks of auth.go decide: which clients are refused as banned, which keys and which
-- passphrases are accepted, and for how long a ban holds.
use ssh_chat.Prelude.{
  ℕ, ◌≤◌, ◌<◌, ◌≡◌, ◌≢◌, refl, ap, ap₂, ◌∙◌, Bool, true, false, not, ◌&&◌, ◌||◌, if◌then◌else◌, ite,
  Option, none, some, [], Text, text_discrete, ◌⊎◌, after, result, ltb, zero, suc, arith,
}
use ssh_chat.Prelude.Int.{ℤ, pos, negsuc}
use ssh_chat.Set.{
  Set, Item, string_item, expire, is_in, found, key, time_add, value, is_nil, nil, truth,
}
use ssh_chat.Set
use ssh_chat.Set.Expiry.{live, keep_live, reads_invisible, set-remove-live}
use ssh_chat.Auth.{
  Externals, KeySet, Auth, not_allowed, banned_error, incorrect_passphrase,
  passphrases_not_accepted, new_auth_key, new_auth_addr, set_passphrase, allow_anonymous,
  check_key_ban, check_addr_ban, check_client_ban, refuse_banned, check_bans, check_public_key,
  check_passphrase, set_for, ban_addr,
}

-- A live item stands in the set under the key.
abbrev pub holds : ℕ → KeySet → Text → Bool
holds now s k = found (live now s k)

module _ (x : Externals) where
  open x use {PublicKey, sha256}

  -- A client is banned by its key, if it has one, by its address, or by its version.
  unfoldable pub is_banned : ℕ → Auth x → Option Text → Option PublicKey → Text → Bool
  is_banned now a addr pk client =
      ite (text_discrete (new_auth_key x pk) []) false (holds now a.banned (new_auth_key x pk))
      || holds now a.banned_addr (new_auth_addr x addr)
      || holds now a.banned_client client

  unfoldable pub is_operator : ℕ → Auth x → Option PublicKey → Bool
  is_operator now a pk = holds now a.ops (new_auth_key x pk)

  is_in-holds : (now : ℕ) (s : KeySet) (k : Text) → result (is_in now s k) ≡ holds now s k
  is_in-holds now s k = (reads_invisible now now s k k (omega arith)).2

  -- Each lookup of `CheckBans` adds its answer to the one before it, and leaves the sets of the
  -- later lookups alone.
  check_key_ban_lem :
      (now : ℕ) (a : Auth x) (k : Option PublicKey)
      → (result (check_key_ban x now a k)
          ≡ ite (text_discrete (new_auth_key x k) []) false (holds now a.banned (new_auth_key x k)))
        × ((after (check_key_ban x now a k)).banned_addr ≡ a.banned_addr)
        × ((after (check_key_ban x now a k)).banned_client ≡ a.banned_client)
        × ((after (check_key_ban x now a k)).ops ≡ a.ops)
  unfolding check_key_ban
  check_key_ban_lem now a k = ground (arith, is_in-holds now a.banned (new_auth_key x k))

  check_addr_ban_lem :
      (now : ℕ) (a : Auth x) (b : Bool) (addr : Option Text)
      → (result (check_addr_ban x now (a, b) addr)
          ≡ (b || holds now a.banned_addr (new_auth_addr x addr)))
        × ((after (check_addr_ban x now (a, b) addr)).banned_client ≡ a.banned_client)
        × ((after (check_addr_ban x now (a, b) addr)).ops ≡ a.ops)
  unfolding check_addr_ban
  check_addr_ban_lem now a true addr = (refl, refl, refl)
  check_addr_ban_lem now a false addr =
      (is_in-holds now a.banned_addr (new_auth_addr x addr), refl, refl)

  check_client_ban_lem :
      (now : ℕ) (a : Auth x) (b : Bool) (client : Text)
      → (result (check_client_ban x now (a, b) client) ≡ (b || holds now a.banned_client client))
        × ((after (check_client_ban x now (a, b) client)).ops ≡ a.ops)
  unfolding check_client_ban
  check_client_ban_lem now a true client = (refl, refl)
  check_client_ban_lem now a false client = (is_in-holds now a.banned_client client, refl)

  refuse_banned_lem :
      (now : ℕ) (a : Auth x) (b : Bool) (k : Option PublicKey)
      → result (refuse_banned x now (a, b) k)
        ≡ (if b && not (holds now a.ops (new_auth_key x k)) then some banned_error else none)
  unfolding refuse_banned
  refuse_banned_lem now a false k = refl
  refuse_banned_lem now a true k = ground (arith, is_in-holds now a.ops (new_auth_key x k))

  or_assoc : (a b c : Bool) → ((a || b) || c) ≡ (a || b || c)
  or_assoc true b c = refl
  or_assoc false b c = refl

  -- `CheckBans` refuses a client, with `ErrBanned`, exactly when a ban of its key, its address or
  -- its version holds and its key is not an operator's.
  pub check_bans-is_banned :
      (now : ℕ) (a : Auth x) (addr : Option Text) (pk : Option PublicKey) (client : Text)
      → result (check_bans x now a addr pk client) ≡ (
          if is_banned now a addr pk client && not (is_operator now a pk)
          then some banned_error
          else none)
  unfolding check_bans is_banned is_operator
  check_bans-is_banned now a addr pk client =
      let k = check_key_ban x now a pk in
      let kl = check_key_ban_lem now a pk in
      let d = check_addr_ban x now k addr in
      let dl = check_addr_ban_lem now k.0 k.1 addr in
      let c = check_client_ban x now d client in
      let cl = check_client_ban_lem now d.0 d.1 client in
      let host = new_auth_addr x addr in
      let by_addr : d.1 ≡ (
          ite (text_discrete (new_auth_key x pk) []) false (holds now a.banned (new_auth_key x pk))
          || holds now a.banned_addr host) =
        dl.0 ∙ ap₂ (λ (b : Bool) (s : KeySet). b || holds now s host) kl.0 kl.1 in
      let by_client : c.1 ≡ is_banned now a addr pk client =
        cl.0
        ∙ ap₂ (λ (b : Bool) (s : KeySet). b || holds now s client) by_addr (dl.1 ∙ kl.2)
        ∙ or_assoc
            (ite (text_discrete (new_auth_key x pk) []) false
              (holds now a.banned (new_auth_key x pk)))
            (holds now a.banned_addr host) (holds now a.banned_client client) in
      refuse_banned_lem now c.0 c.1 pk
      ∙ ap₂
          (λ (b : Bool) (s : KeySet).
            if b && not (holds now s (new_auth_key x pk)) then some banned_error else none)
          by_client (cl.1 ∙ dl.2 ∙ kl.3)

  -- `CheckPublicKey` accepts a key exactly when anyone may connect, or the key is on the allowlist,
  -- or it is an operator's; else it returns `ErrNotAllowed`.
  pub check_public_key-allowed :
      (now : ℕ) (a : Auth x) (pk : Option PublicKey)
      → result (check_public_key x now a pk) ≡ (
          if allow_anonymous x a
            || holds now a.allowlist (new_auth_key x pk)
            || is_operator now a pk
          then none
          else some not_allowed)
  unfolding check_public_key is_operator
  check_public_key-allowed now a pk = ground (
    arith,
    is_in-holds now a.allowlist (new_auth_key x pk),
    is_in-holds now a.ops (new_auth_key x pk),
  )

  -- After `SetPassphrase p` with a `p` that is not empty, exactly the passphrases with the hash of
  -- `p` are accepted, and nobody connects anonymously. An empty one turns passphrases off.
  pub set_passphrase-check :
      (a : Auth x) (p q : Text)
      → (check_passphrase x (set_passphrase x a p) q
          ≡ ite
              (text_discrete p [])
              (some passphrases_not_accepted)
              (ite (text_discrete (sha256 q) (sha256 p)) none (some incorrect_passphrase)))
        × (allow_anonymous x (set_passphrase x a p)
            ≡ (not a.allowlist_mode && ite (text_discrete p []) true false))
  unfolding check_passphrase set_passphrase allow_anonymous
  set_passphrase-check a p q = elim (text_discrete p []) [
    | yes h ↦ (ground arith, ground arith)
    | no h ↦ (ground arith, ground arith)
  ]

  -- A new item of the ban lists is live until its duration is over; the duration 0 is for ever.
  abbrev pub InForce : ℕ → ℕ → ℤ → Type 0
  InForce set_at now d = (d ≡ pos 0) ⊎ (now ≤ time_add set_at d)

  set-live_self :
      (now : ℕ) (s : KeySet) (it : Item (Unit {0})) (k : Text)
      → key it ≡ k
      → live now (Set.set s it).0 k ≡ keep_live now (some it)
  set-live_self now s it k e = (set-remove-live now s it k k).1 ∙ ground (arith, e)

  lasting-holds :
      (set_at now : ℕ) (s : KeySet) (k : Text) (d : ℤ)
      → holds now (Set.set s (expire set_at (string_item k) d)).0 k
        ≡ not (ltb (time_add set_at d) now)
  unfolding expire key value found is_nil
  lasting-holds set_at now s k d =
      ap found (set-live_self now s (expire set_at (string_item k) d) k refl) ∙ ground arith

  pub set_for-holds :
      (set_at now : ℕ) (s : KeySet) (k : Text) (d : ℤ)
      → InForce set_at now d
      → holds now (set_for x set_at s k d) k ≡ true
  unfolding set_for key value found is_nil
  set_for-holds set_at now s k (pos zero) f = ap found (set-live_self now s (string_item k) k refl)
  set_for-holds set_at now s k (pos (suc n)) f =
      lasting-holds set_at now s k (pos (suc n)) ∙ ground arith
  set_for-holds set_at now s k (negsuc n) f = lasting-holds set_at now s k (negsuc n) ∙ ground arith

  pub set_for_over :
      (set_at now : ℕ) (s : KeySet) (k : Text) (d : ℤ)
      → d ≢ pos 0
      → time_add set_at d < now
      → holds now (set_for x set_at s k d) k ≡ false
  unfolding set_for
  set_for_over set_at now s k (pos zero) n f = absurd (n refl)
  set_for_over set_at now s k (pos (suc m)) n f =
      lasting-holds set_at now s k (pos (suc m)) ∙ ground arith
  set_for_over set_at now s k (negsuc m) n f =
      lasting-holds set_at now s k (negsuc m) ∙ ground arith

  refused :
      (b c : Bool)
      → (if (b || true || c) && not false then some banned_error else none) ≡ some banned_error
  refused true c = refl
  refused false c = refl

  -- While the ban of an address is in force, `CheckBans` refuses every client from the same host
  -- whose key is not an operator's.
  pub ban_addr-check :
      (set_at now : ℕ) (a : Auth x) (banned addr : Option Text) (pk : Option PublicKey)
      (client : Text) (d : ℤ)
      → new_auth_addr x addr ≡ new_auth_addr x banned
      → InForce set_at now d
      → is_operator now a pk ≡ false
      → result (check_bans x now (ban_addr x set_at a banned d) addr pk client) ≡ some banned_error
  unfolding is_operator is_banned ban_addr
  ban_addr-check set_at now a banned addr pk client d same f plain =
      check_bans-is_banned now (ban_addr x set_at a banned d) addr pk client
      ∙ rw (same, set_for-holds set_at now a.banned_addr (new_auth_addr x banned) d f, plain)
          (refused
            (ite (text_discrete (new_auth_key x pk) []) false
              (holds now a.banned (new_auth_key x pk)))
            (holds now a.banned_client client))

  -- When the ban of an address is over, a client without a key from that host is refused only for
  -- its version.
  pub ban_addr_over :
      (set_at now : ℕ) (a : Auth x) (banned addr : Option Text) (client : Text) (d : ℤ)
      → new_auth_addr x addr ≡ new_auth_addr x banned
      → d ≢ pos 0
      → time_add set_at d < now
      → result (check_bans x now (ban_addr x set_at a banned d) addr none client) ≡ (
          if holds now a.banned_client client && not (is_operator now a none)
          then some banned_error
          else none)
  unfolding is_banned is_operator ban_addr new_auth_key text_discrete
  ban_addr_over set_at now a banned addr client d same n over =
      check_bans-is_banned now (ban_addr x set_at a banned d) addr none client
      ∙ rw (same, set_for_over set_at now a.banned_addr (new_auth_addr x banned) d n over) refl
