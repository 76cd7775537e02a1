-- ===== src/Host/Allowlist/Effects.antt =====
-- What adding and removing a user by /allowlist amounts to at the next handshake.
use ssh_chat.Prelude.{
  ℕ, ◌+◌, ◌<◌, ◌≡◌, refl, ap, ◌∙◌, Bool, true, false, ◌||◌, if◌then◌else◌, Option, none, some, List,
  [], ◌∷◌, Text, codes, text_discrete, has_prefix, after, result, arith, inl,
}
use ssh_chat.Prelude.Int.{ℤ, pos}
use ssh_chat.Set.{time_add}
use ssh_chat.Auth.{
  Externals, Auth, AuthError, not_allowed, new_auth_key, allow, allow_anonymous, check_public_key,
  accept_passphrase, set_for,
}
use ssh_chat.Auth.Checks.{holds, is_operator, check_public_key-allowed, set_for-holds, set_for_over}
use ssh_chat.Room.{World, member_by_id}
use ssh_chat.Room
use ssh_chat.Commands.{Request, Ambient}
use ssh_chat.Host.{Outside, Host, HostOutcome, on_world, as_op, get_user}
use ssh_chat.Host.Allowlist.{subcommand, respond, allowlist_args, allowlist_command}
use ssh_chat.Host.Allowlist.Keys.{Collected, complaints, add_arg, add_args, for_pubkey_user}

module _ (x : Externals) where
  allow-check :
      (set_at later : ℕ) (a : Auth x) (k : x.PublicKey) (d : ℤ)
      → result (check_public_key x later (allow x set_at a (some k) d) (some k)) ≡ (
          if allow_anonymous x a
            || holds later
                (set_for x set_at a.allowlist (new_auth_key x (some k)) d)
                (new_auth_key x (some k))
            || is_operator x later a (some k)
          then none
          else some not_allowed)
  unfolding allow is_operator allow_anonymous accept_passphrase
  allow-check set_at later a k d =
      check_public_key-allowed x later (allow x set_at a (some k) d) (some k)

  module _ (o : Outside x) (env : Ambient) (h : Host x) (u : ℕ) (body command name : Text)
      (p : ℕ) where
    -- The request `/allowlist`, with a subcommand for one name.
    abbrev pub asks : Text → Request
    asks sub = record { from = u; body = body; command = command; args = sub ∷ name ∷ [] }

    abbrev pub op : World × Bool
    op = Room.is_op env.now h.world u

    abbrev pub found : World × Option ℕ
    found = member_by_id env.now (after op) name

    abbrev pub target : ℕ
    target = ((after found).member p).user

    abbrev empty : Collected
    empty = record { key_type = []; no_keys = []; invalid_users = []; invalid_keys = [] }

    add_arg-found :
        (cmd : Auth x → x.PublicKey → Auth x) (k : x.PublicKey)
        → result found ≡ some p
        → has_prefix name (codes "ssh-") ≡ false
        → (h.conn target).public_key ≡ some k
        → add_arg x o env.now cmd (on_world x h (after op), empty) name
          ≡ (record (on_world x h (after found)) { auth = cmd h.auth k }, empty)
    unfolding add_arg get_user text_discrete
    add_arg-found cmd k f n key = rw (n, add_arg) (rw (f, add_arg) (rw (key, add_arg) refl))

    for_pubkey_user-auth :
        (cmd : Auth x → x.PublicKey → Auth x) (k : x.PublicKey)
        → result found ≡ some p
        → has_prefix name (codes "ssh-") ≡ false
        → (h.conn target).public_key ≡ some k
        → for_pubkey_user x o env.now cmd (on_world x h (after op)) (name ∷ [])
          ≡ (record (on_world x h (after found)) { auth = cmd h.auth k }, [])
    unfolding for_pubkey_user add_args add_arg get_user complaints text_discrete
    for_pubkey_user-auth cmd k f n key =
        rw (add_arg-found cmd k f n key, for_pubkey_user, add_args) refl

    allowlist_command_op :
        (sub : Text)
        → result op ≡ true
        → allowlist_command x o env h (asks sub)
          ≡ respond x env u (subcommand x o env (on_world x h (after op)) sub (name ∷ []))
    unfolding allowlist_command as_op allowlist_args
    allowlist_command_op sub e = rw (e, allowlist_command) refl

    -- The request with one of the two subcommands that run `cmd`, of an operator.
    subcommand_lem :
        (sub : Text) (cmd : Auth x → x.PublicKey → Auth x) (k : x.PublicKey)
        → subcommand x o env (on_world x h (after op)) sub (name ∷ []) ≡ (
            let r = for_pubkey_user x o env.now cmd (on_world x h (after op)) (name ∷ []) in
            (r.0, r.1, none))
        → result op ≡ true
        → result found ≡ some p
        → has_prefix name (codes "ssh-") ≡ false
        → (h.conn target).public_key ≡ some k
        → allowlist_command x o env h (asks sub)
          ≡ (record (on_world x h (after found)) { auth = cmd h.auth k }, none)
    unfolding respond
    subcommand_lem sub cmd k s e f n key =
        allowlist_command_op sub e
        ∙ ap (respond x env u) (
            s
            ∙ ap (λ (r : Host x × List Text). (r.0, r.1, none))
                (for_pubkey_user-auth cmd k f n key))

    add_lem : subcommand x o env (on_world x h (after op)) (codes "add") (name ∷ []) ≡ (
        let r =
          for_pubkey_user x o env.now
            (λ a k. allow x env.now a (some k) (pos 0))
            (on_world x h (after op))
            (name ∷ []) in
        (r.0, r.1, none))
    unfolding subcommand text_discrete
    add_lem = refl

    remove_lem : subcommand x o env (on_world x h (after op)) (codes "remove") (name ∷ []) ≡ (
        let r =
          for_pubkey_user x o env.now
            (λ a k. allow x env.now a (some k) (pos 1))
            (on_world x h (after op))
            (name ∷ []) in
        (r.0, r.1, none))
    unfolding subcommand text_discrete
    remove_lem = refl

    -- What is reported, and whether the key is let in at a later time by `CheckPublicKey`.
    abbrev pub verdict : ℕ → x.PublicKey → HostOutcome x → Option Text × Option AuthError
    verdict later k r = (result r, result (check_public_key x later (after r).auth (some k)))

    -- The test of `CheckPublicKey`.
    abbrev decision : Bool → Bool → Bool → Option AuthError
    decision b listed c = if b || listed || c then none else some not_allowed

    listed_decision : (b c : Bool) → decision b true c ≡ none
    listed_decision b c = ground arith

    unlisted_decision :
        (b c : Bool) → decision b false c ≡ (if b || c then none else some not_allowed)
    unlisted_decision b c = ground arith

    -- When an operator adds a user in the room by name to the allowlist, nothing is reported, and
    -- from then on the user's key is let in, in whatever mode.
    pub allowlist_add-check :
        (later : ℕ) (k : x.PublicKey)
        → result op ≡ true
        → result found ≡ some p
        → has_prefix name (codes "ssh-") ≡ false
        → (h.conn target).public_key ≡ some k
        → verdict later k (allowlist_command x o env h (asks (codes "add"))) ≡ (none, none)
    allowlist_add-check later k e f n key =
        ap (verdict later k) (subcommand_lem (codes "add") _ k add_lem e f n key)
        ∙ ap (λ (c : Option AuthError). (none, c))
            (allow-check env.now later h.auth k (pos 0)
              ∙ rw
                  (set_for-holds x env.now later h.auth.allowlist (new_auth_key x (some k)) (pos 0)
                    (inl refl))
                  (listed_decision (allow_anonymous x h.auth)
                    (is_operator x later h.auth (some k))))

    -- When an operator removes such a user from the allowlist, nothing is reported, and from the
    -- second nanosecond after that the user's key is let in only if anyone may connect or it is an
    -- operator's.
    pub allowlist_remove-check :
        (later : ℕ) (k : x.PublicKey)
        → result op ≡ true
        → result found ≡ some p
        → has_prefix name (codes "ssh-") ≡ false
        → (h.conn target).public_key ≡ some k
        → env.now + 1 < later
        → verdict later k (allowlist_command x o env h (asks (codes "remove"))) ≡ (
          none,
          if allow_anonymous x h.auth || is_operator x later h.auth (some k)
              then none
              else some not_allowed,
        )
    unfolding time_add
    allowlist_remove-check later k e f n key over =
        ap (verdict later k) (subcommand_lem (codes "remove") _ k remove_lem e f n key)
        ∙ ap (λ (c : Option AuthError). (none, c))
            (allow-check env.now later h.auth k (pos 1)
              ∙ rw
                  (set_for_over x env.now later h.auth.allowlist (new_auth_key x (some k)) (pos 1)
                    (ground arith) over)
                  (unlisted_decision (allow_anonymous x h.auth)
                    (is_operator x later h.auth (some k))))
