-- ===== src/Auth/Handshake/Access.antt =====
-- Who gets through the handshake of sshd/auth.go with the implementation of auth.go.
use ssh_chat.Prelude.{
  ℕ, ◌+◌, ◌≤◌, ◌*◌, ◌≡◌, refl, ap, ◌∙◌, Bool, true, false, not, ◌&&◌, ◌||◌, if◌then◌else◌, Option,
  none, some, List, [], ◌∷◌, Text, inr, after, result, ok, err, arith,
}
use ssh_chat.Prelude.Int.{pos}
use ssh_chat.Set.{found, time_add}
use ssh_chat.Set.Expiry.{reads_invisible}
use ssh_chat.Sanitize.{data_text}
use ssh_chat.Auth.{
  Externals, Auth, AuthError, not_allowed, banned_error, new_auth_key, new_auth_addr,
  accept_passphrase, allow_anonymous, check_key_ban, check_addr_ban, check_client_ban,
  refuse_banned, check_bans, check_public_key, check_passphrase, ban_addr,
}
use ssh_chat.Auth.Checks.{
  holds, is_banned, is_operator, check_bans-is_banned, check_public_key-allowed, ban_addr-check,
}
use ssh_chat.Auth.Handshake.{public_key_callback, check_answers, keyboard_callback, auth_ops}

-- The error is nil.
abbrev pub succeeds : Option AuthError → Bool
succeeds none = true
succeeds (some e) = false

in_force :
    (later next : ℕ) → next ≤ later + 2 * 1000000000 → next ≤ time_add later (pos (2 * 1000000000))
unfolding time_add
in_force later next h = h

module _ (x : Externals) where
  -- What `CheckBans` leaves as it was, the operators as a reader sees them.
  record Kept (now : ℕ) (a b : Auth x) : Type 0 where
    hash : b.passphrase_hash ≡ a.passphrase_hash
    mode : b.allowlist_mode ≡ a.allowlist_mode
    allowed : b.allowlist ≡ a.allowlist
    operators : (k : Text) → holds now b.ops k ≡ holds now a.ops k

  check_key_ban-Kept :
      (now : ℕ) (a : Auth x) (k : Option x.PublicKey) → Kept now a (after (check_key_ban x now a k))
  unfolding check_key_ban
  check_key_ban-Kept now a k = ground arith

  check_addr_ban-Kept :
      (now : ℕ) (a b : Auth x) (f : Bool) (addr : Option Text)
      → Kept now a b
      → Kept now a (after (check_addr_ban x now (b, f) addr))
  unfolding check_addr_ban
  check_addr_ban-Kept now a b true addr v = v
  check_addr_ban-Kept now a b false addr v = record {
    hash = v.hash;
    mode = v.mode;
    allowed = v.allowed;
    operators = v.operators;
  }

  check_client_ban-Kept :
      (now : ℕ) (a b : Auth x) (f : Bool) (client : Text)
      → Kept now a b
      → Kept now a (after (check_client_ban x now (b, f) client))
  unfolding check_client_ban
  check_client_ban-Kept now a b true client v = v
  check_client_ban-Kept now a b false client v = record {
    hash = v.hash;
    mode = v.mode;
    allowed = v.allowed;
    operators = v.operators;
  }

  refuse_banned-Kept :
      (now : ℕ) (a b : Auth x) (f : Bool) (k : Option x.PublicKey)
      → Kept now a b
      → Kept now a (after (refuse_banned x now (b, f) k))
  unfolding refuse_banned
  refuse_banned-Kept now a b false k v = v
  refuse_banned-Kept now a b true k v = record {
    hash = v.hash;
    mode = v.mode;
    allowed = v.allowed;
    operators = λ j.
        ap found ((reads_invisible now now b.ops (new_auth_key x k) j (omega arith)).0)
        ∙ v.operators j;
  }

  check_bans-Kept :
      (now : ℕ) (a : Auth x) (addr : Option Text) (k : Option x.PublicKey) (client : Text)
      → Kept now a (after (check_bans x now a addr k client))
  unfolding check_bans
  check_bans-Kept now a addr k client =
      let b = check_key_ban x now a k in
      let c = check_addr_ban x now b addr in
      let d = check_client_ban x now c client in
      refuse_banned-Kept now a d.0 d.1 k (
        check_client_ban-Kept now a c.0 c.1 client
          (check_addr_ban-Kept now a b.0 b.1 addr (check_key_ban-Kept now a k)))

  Kept-anonymous :
      {now : ℕ} {a b : Auth x} → Kept now a b → allow_anonymous x b ≡ allow_anonymous x a
  unfolding allow_anonymous
  Kept-anonymous v = ground (arith, v.hash, v.mode)

  Kept-accept :
      {now : ℕ} {a b : Auth x} → Kept now a b → accept_passphrase x b ≡ accept_passphrase x a
  unfolding accept_passphrase
  Kept-accept v = ground (arith, v.hash)

  Kept-check :
      {now : ℕ} {a b : Auth x} (p : Text)
      → Kept now a b
      → check_passphrase x b p ≡ check_passphrase x a p
  unfolding check_passphrase
  Kept-check p v = ground (arith, v.hash)

  Kept-allowed :
      {now : ℕ} {a b : Auth x} (k : Option x.PublicKey)
      → Kept now a b
      → result (check_public_key x now b k) ≡ (
          if allow_anonymous x a
            || holds now a.allowlist (new_auth_key x k)
            || is_operator x now a k
          then none
          else some not_allowed)
  unfolding is_operator
  Kept-allowed {now} {a} {b} k v =
      check_public_key-allowed x now b k
      ∙ rw (Kept-anonymous v, v.allowed, v.operators (new_auth_key x k)) refl

  -- Logging in with a key, with the implementation of auth.go: a banned client that is no operator
  -- is refused with `ErrBanned`; any other gets in, with its key in the permissions, exactly when
  -- anyone may connect, or its key is on the allowlist, or it is an operator's.
  pub public_key_login :
      (now : ℕ) (a : Auth x) (addr : Option Text) (k : x.PublicKey) (version : Text)
      → result (public_key_callback (auth_ops x) x.marshal now a addr k version) ≡ (
          if is_banned x now a addr (some k) (data_text version 64)
            && not (is_operator x now a (some k))
          then err banned_error
          else if allow_anonymous x a
              || holds now a.allowlist (new_auth_key x (some k))
              || is_operator x now a (some k)
          then ok (x.marshal k)
          else err not_allowed)
  unfolding public_key_callback
  public_key_login now a addr k version =
      let client = data_text version 64 in
      let v = check_bans-Kept now a addr (some k) client in
      ground (arith, check_bans-is_banned x now a addr (some k) client, Kept-allowed (some k) v)

  -- An operator's key always gets in, whatever is banned and whatever mode is on.
  pub operator_login :
      (now : ℕ) (a : Auth x) (addr : Option Text) (k : x.PublicKey) (version : Text)
      → is_operator x now a (some k) ≡ true
      → result (public_key_callback (auth_ops x) x.marshal now a addr k version) ≡ ok (x.marshal k)
  operator_login now a addr k version h = public_key_login now a addr k version ∙ ground (arith, h)

  -- The client gave one answer, and it is accepted.
  pub answers_accepted : Auth x → Option (List Text) → Bool
  answers_accepted a none = false
  answers_accepted a (some []) = false
  answers_accepted a (some (p ∷ [])) = succeeds (check_passphrase x a p)
  answers_accepted a (some (p ∷ q ∷ r)) = false

  check_answers-accepted :
      (now later : ℕ) (a b : Auth x) (addr : Option Text) (answers : Option (List Text))
      → Kept now a b
      → succeeds (result (check_answers (auth_ops x) x.marshal later b addr answers))
        ≡ answers_accepted a answers
  unfolding check_answers answers_accepted
  check_answers-accepted now later a b addr none v = refl
  check_answers-accepted now later a b addr (some []) v = refl
  check_answers-accepted now later a b addr (some (p ∷ [])) v = ground (arith, Kept-check p v)
  check_answers-accepted now later a b addr (some (p ∷ q ∷ r)) v = refl

  -- Logging in without a key: the client gets in exactly when it is not banned and, if a passphrase
  -- is set, it gives the one answer that is accepted, else anyone may connect.
  pub keyboard_login :
      (now later : ℕ) (a : Auth x) (addr : Option Text) (version : Text)
      (answers : Option (List Text))
      → succeeds
          (result (keyboard_callback (auth_ops x) x.marshal now later a addr version answers))
        ≡ (not
              (is_banned x now a addr none (data_text version 64) && not (is_operator x now a none))
            && (if accept_passphrase x a then answers_accepted a answers else allow_anonymous x a))
  unfolding keyboard_callback
  keyboard_login now later a addr version answers =
      let r = check_bans x now a addr none (data_text version 64) in
      let v = check_bans-Kept now a addr none (data_text version 64) in
      ground (
        arith,
        check_bans-is_banned x now a addr none (data_text version 64),
        Kept-accept v,
        Kept-anonymous v,
        check_answers-accepted now later a r.0 addr answers v,
      )

  check_answers_wrong :
      (later : ℕ) (a : Auth x) (addr : Option Text) (p : Text) (e : AuthError)
      → check_passphrase x a p ≡ some e
      → check_answers (auth_ops x) x.marshal later a addr (some (p ∷ []))
        ≡ (ban_addr x later a addr (pos (2 * 1000000000)), some e)
  unfolding check_answers
  check_answers_wrong later a addr p e wrong = ground (arith, wrong)

  -- A passphrase that is refused bans the client's address: until two seconds after the answer,
  -- `CheckBans` refuses every client from that host whose key is not an operator's.
  pub wrong_passphrase_bans :
      (later next : ℕ) (a : Auth x) (addr other : Option Text) (p version : Text)
      (k : Option x.PublicKey) (e : AuthError)
      → check_passphrase x a p ≡ some e
      → new_auth_addr x other ≡ new_auth_addr x addr
      → next ≤ later + 2 * 1000000000
      → is_operator x next a k ≡ false
      → let r = check_answers (auth_ops x) x.marshal later a addr (some (p ∷ [])) in
        (result r ≡ some e)
        × (result (check_bans x next (after r) other k version) ≡ some banned_error)
  wrong_passphrase_bans later next a addr other p version k e wrong same soon plain =
      let bans =
        ban_addr-check x later next a addr other k version (pos (2 * 1000000000)) same
          (inr (in_force later next soon)) plain in
      rw (check_answers_wrong later a addr p e wrong) (refl, bans)
