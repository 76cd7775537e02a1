-- ===== src/Host/Moderation/Banned.antt =====
-- What the ban of a user by /ban amounts to at the next handshake.
use ssh_chat.Prelude.{
  ℕ, ◌≡◌, refl, ◌∙◌, Bool, true, false, Option, none, some, List, ◌∷◌, Text, after, result, arith,
}
use ssh_chat.Prelude.Int.{ℤ}
use ssh_chat.Auth.{Externals, Auth, banned_error, new_auth_addr, ban, ban_fingerprint, check_bans}
use ssh_chat.Auth.Checks.{InForce, is_operator, ban_addr-check}
use ssh_chat.Room.{World, member_by_id, set_user}
use ssh_chat.Room
use ssh_chat.User
use ssh_chat.Commands.{Request, Ambient}
use ssh_chat.Host.{Outside, Host, HostOutcome, on_world, announce, close_user, as_op, get_user}
use ssh_chat.Host.Moderation.{ban_duration, ban_user, ban_args, ban_command}

module _ (x : Externals) where
  open x use {PublicKey}

  ban-is_operator :
      (set_at now : ℕ) (a : Auth x) (key pk : Option PublicKey) (d : ℤ)
      → is_operator x now (ban x set_at a key d) pk ≡ is_operator x now a pk
  unfolding ban ban_fingerprint is_operator
  ban-is_operator set_at now a none pk d = refl
  ban-is_operator set_at now a (some k) pk d = refl

  ban_user-done :
      (env : Ambient) (u : ℕ) (args : List Text) (h : Host x) (target : ℕ)
      → (result (ban_user x env u args h target) ≡ none)
        × (((after (ban_user x env u args h target)).world.users target).done ≡ true)
  unfolding ban_user close_user set_user User.close
  ban_user-done env u args h target = (refl, ground arith)

  ban_user-refused :
      (env : Ambient) (u : ℕ) (args : List Text) (h : Host x) (target later : ℕ)
      (addr : Option Text) (pk : Option PublicKey) (client : Text)
      → new_auth_addr x addr ≡ new_auth_addr x (some (h.conn target).remote_addr)
      → InForce x env.now later (ban_duration x env args)
      → is_operator x later h.auth pk ≡ false
      → result (check_bans x later (after (ban_user x env u args h target)).auth addr pk client)
        ≡ some banned_error
  unfolding ban_user close_user announce
  ban_user-refused env u args h target later addr pk client same force plain =
      let until = ban_duration x env args in
      let key = (h.conn target).public_key in
      ban_addr-check x env.now later (ban x env.now h.auth key until)
        (some (h.conn target).remote_addr) addr pk client until same force
        (ban-is_operator env.now later h.auth key pk until ∙ plain)

  module _ (o : Outside x) (env : Ambient) (h : Host x) (u : ℕ) (body command name : Text)
      (args : List Text) (p : ℕ) where
    abbrev pub req : Request
    req = record { from = u; body = body; command = command; args = name ∷ args }

    abbrev pub op : World × Bool
    op = Room.is_op env.now h.world u

    abbrev pub found : World × Option ℕ
    found = member_by_id env.now (after op) name

    abbrev pub target : ℕ
    target = ((after found).member p).user

    abbrev pub outcome : HostOutcome x
    outcome = ban_command x o env h req

    ban_command-user :
        result op ≡ true
        → result found ≡ some p
        → outcome ≡ ban_user x env u args (on_world x h (after found)) target
    unfolding ban_command as_op ban_args get_user
    ban_command-user e f = rw (e, ban_command) (rw (f, ban_args) refl)

    -- When an operator bans a user by name, the command succeeds and the user is closed. As long as
    -- the ban lasts, a client from the same host is refused, unless its key is an operator's.
    pub ban_command-banned :
        (later : ℕ) (addr : Option Text) (pk : Option PublicKey) (client : Text)
        → result op ≡ true
        → result found ≡ some p
        → new_auth_addr x addr ≡ new_auth_addr x (some (h.conn target).remote_addr)
        → InForce x env.now later (ban_duration x env args)
        → is_operator x later h.auth pk ≡ false
        → (result outcome ≡ none)
          × (result (check_bans x later (after outcome).auth addr pk client) ≡ some banned_error)
          × (((after outcome).world.users target).done ≡ true)
    ban_command-banned later addr pk client e f same force plain =
        let user = on_world x h (after found) in
        let done = ban_user-done env u args user target in
        let refused =
          ban_user-refused env u args user target later addr pk client same force plain in
        rw (ban_command-user e f) (done.0, refused, done.1)
