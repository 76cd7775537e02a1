-- ===== src/Auth/Handshake.antt =====
-- sshd/auth.go: the callbacks of the SSH handshake, over the interface `sshd.Auth` that auth.go
-- implements. What the client answers to the passphrase prompt is an argument (`none` for an error
-- of the connection), and so is the later time at which it answers.
pub mod Access
use ssh_chat.Prelude.{
  ℕ, suc, ◌≤◌, ◌<◌, ◌*◌, ◌≡◌, ◌≢◌, refl, ap, ap₂, ◌∙◌, sym, Bool, true, false, not, ◌&&◌, ◌||◌,
  if◌then◌else◌, ite, Option, none, some, List, [], ◌∷◌, Text, text_discrete, Bool-cases,
  Option-cases, inl, inr, ◌⊎◌, after, result, Result, ok, err, ltb, arith,
}
use ssh_chat.Prelude.Int.{ℤ, pos}
use ssh_chat.Set.{is_in, found, time_add}
use ssh_chat.Set.Expiry.{reads_invisible}
use ssh_chat.Sanitize.{data_text}
use ssh_chat.Auth.{
  Externals, KeySet, Auth, AuthError, not_allowed, banned_error, no_passphrase, key_required,
  challenge_failed, incorrect_passphrase, passphrases_not_accepted, new_auth_key, new_auth_addr,
  accept_passphrase, allow_anonymous, is_op, check_key_ban, check_addr_ban, check_client_ban,
  refuse_banned, check_bans, check_public_key, check_passphrase, ban_addr,
}
use ssh_chat.Auth.Checks.{
  holds, is_banned, is_operator, InForce, check_bans-is_banned, check_public_key-allowed,
  ban_addr-check,
}

-- The interface `sshd.Auth`, over a key type and the state of the implementation.
pub record AuthOps (Key S : Type 0) : Type 0 where
  pub allow_anonymous : S → Bool
  pub accept_passphrase : S → Bool
  pub check_bans : ℕ → S → Option Text → Option Key → Text → S × Option AuthError
  pub check_public_key : ℕ → S → Option Key → S × Option AuthError
  pub check_passphrase : S → Text → Option AuthError
  pub ban_addr : ℕ → S → Option Text → ℤ → S

module _ {Key S : Type 0} (auth : AuthOps Key S) (marshal : Key → Text) where
  -- `PublicKeyCallback` of `MakeAuth`. The permissions carry the key in its wire form.
  unfoldable pub public_key_callback : ℕ → S → Option Text → Key → Text → S × Result AuthError Text
  public_key_callback now s addr key version =
      let (s', e) = auth.check_bans now s addr (some key) (data_text version 64) in
      elim e [
        | some e' ↦ (s', err e')
        | none ↦
            let (s'', f) = auth.check_public_key now s' (some key) in
            elim f [ some f' ↦ (s'', err f') | none ↦ (s'', ok (marshal key)) ]
      ]

  -- What follows the client's answers: anything but one answer is refused, and an answer that is
  -- not the passphrase bans the address for two seconds.
  unfoldable pub check_answers : ℕ → S → Option Text → Option (List Text) → S × Option AuthError
  check_answers now s addr none = (s, some challenge_failed)
  check_answers now s addr (some []) = (s, some no_passphrase)
  check_answers now s addr (some (p ∷ [])) = elim (auth.check_passphrase s p) [
    | none ↦ (s, none)
    | some e ↦ (auth.ban_addr now s addr (pos (2 * 1000000000)), some e)
  ]
  check_answers now s addr (some (p ∷ q ∷ r)) = (s, some no_passphrase)

  -- `KeyboardInteractiveCallback` of `MakeAuth`.
  unfoldable pub keyboard_callback :
      ℕ → ℕ → S → Option Text → Text → Option (List Text) → S × Option AuthError
  unfolding check_answers
  keyboard_callback now later s addr version answers =
      let (s', e) = auth.check_bans now s addr none (data_text version 64) in
      elim e [
        | some e' ↦ (s', some e')
        | none ↦
            if auth.accept_passphrase s'
            then check_answers later s' addr answers
            else if not (auth.allow_anonymous s')
            then (s', some key_required)
            else (s', none)
      ]

-- `MakeNoAuth`: everybody is let in.
unfoldable pub no_auth_public_key : {Key : Type 0} → (Key → Text) → Key → Result AuthError Text
no_auth_public_key marshal key = ok (marshal key)

unfoldable pub no_auth_keyboard : Option AuthError
no_auth_keyboard = none

module _ (x : Externals) where
  -- The implementation by auth.go.
  abbrev pub auth_ops : AuthOps x.PublicKey (Auth x)
  auth_ops = record {
    allow_anonymous = allow_anonymous x;
    accept_passphrase = accept_passphrase x;
    check_bans = check_bans x;
    check_public_key = check_public_key x;
    check_passphrase = check_passphrase x;
    ban_addr = ban_addr x;
  }
