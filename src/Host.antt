-- ===== src/Host.antt =====
-- host.go and identity.go: the host, which joins the room, the authentication lists and the
-- connections, and the handlers of its own commands. A handler runs on the host; those of the room
-- run on its room alone. What is logged is left out.
pub mod Whois
pub mod Private
pub mod Moderation
pub mod Rename
pub mod Allowlist
pub mod Registry
pub mod Complete
pub mod Connect
pub mod Example
mod Tests
use ssh_chat.Prelude.{
  ℕ, Bool, true, false, not, if◌then◌else◌, Option, none, some, List, [], ◌∷◌, ◌++◌, Text, codes,
  Result,
}
use ssh_chat.Prelude.Int.{ℤ, pos}
use ssh_chat.Auth.{Externals, Auth, AuthError}
use ssh_chat.Auth
use ssh_chat.Message.{Message, system_msg, announce_msg}
use ssh_chat.Theme.{Theme, no_theme}
use ssh_chat.Set.{Set}
use ssh_chat.User.{User}
use ssh_chat.User
use ssh_chat.Room.{World, Member, new_room, member_by_id, set_user}
use ssh_chat.Room
use ssh_chat.Commands.{Request, Ambient, Handler}

module _ (x : Externals) where
  open x use {PublicKey}

  -- What the host asks of the `sshd.Connection` of an identity.
  pub record Connection : Type 0 where
    pub name : Text
    pub public_key : Option PublicKey
    pub remote_addr : Text
    pub client_version : Text

  -- What the host takes from elsewhere: `ssh.ParseAuthorizedKey`, `%q`, the text that
  -- `humantime.Since` prints of a time, and the texts of the errors of the authentication.
  pub record Outside : Type 0 where
    pub parse_authorized_key : Text → Option PublicKey
    pub quoted : Text → Text
    pub since : ℕ → ℕ → Text
    pub error_text : AuthError → Text

  -- `Host`, with the store of the connections of the users. `GetMOTD` is a function of the time of
  -- its call. `echoed` holds the messages that `User.HandleMsg` was called with, with their users.
  pub record Host : Type 0 where
    pub world : World
    pub conn : ℕ → Connection
    pub auth : Auth x
    pub version : Text
    pub time_started : ℕ
    pub theme : Theme
    pub motd : Text
    pub count : ℕ
    pub get_motd : Option (ℕ → Result Text Text)
    pub echoed : List (ℕ × Message)

  -- The stores at the start, whose pointers are not handed out yet.
  pub record Stores : Type 0 where
    pub users : ℕ → User
    pub member : ℕ → Member
    pub conn : ℕ → Connection

  -- `NewHost`. The commands are those of Host/Registry.
  unfoldable pub new_host : Stores → ℕ → Auth x → Host
  unfolding new_room
  new_host stores now a = record {
    world = record {
      room = new_room x.lower_beyond;
      users = stores.users;
      member = stores.member;
      fresh = 0;
      sent = [];
      spawned = [];
    };
    conn = stores.conn;
    auth = a;
    version = [];
    time_started = now;
    theme = no_theme;
    motd = [];
    count = 0;
    get_motd = none;
    echoed = [];
  }

  abbrev pub HostOutcome : Type 0
  HostOutcome = Host × Option Text

  abbrev pub HostHandler : Type 0
  HostHandler = Ambient → Host → Request → HostOutcome

  abbrev pub on_world : Host → World → Host
  on_world h w = record h { world = w }

  -- The host with other members of the room.
  abbrev pub on_members : Host → Set ℕ → Host
  on_members h s = on_world h (record h.world { room = record h.world.room { members = s } })

  abbrev pub refuse : Host → Text → HostOutcome
  refuse h text = (h, some text)

  -- `room.Send(message.NewSystemMsg(text, u))` and `room.Send(message.NewAnnounceMsg(text))`, and no
  -- error.
  unfoldable pub tell : Ambient → Host → ℕ → Text → HostOutcome
  tell env h u text = (on_world h (Room.send h.world (system_msg u text env.now)), none)

  unfoldable pub announce : Ambient → Host → Text → HostOutcome
  announce env h text = (on_world h (Room.send h.world (announce_msg text env.now)), none)

  -- A handler of the room.
  unfoldable pub on_room : Handler → HostHandler
  on_room f env h req = let (w, e) = f env h.world req in (on_world h w, e)

  -- `SetTheme` and `SetMotd`.
  unfoldable pub set_theme : Host → Theme → Host
  set_theme h theme = record h { theme = theme }

  unfoldable pub set_motd : Host → Text → Host
  set_motd h motd = record h { motd = motd }

  -- `isOp`.
  unfoldable pub is_op : ℕ → Host → Connection → Host × Bool
  is_op now h c = elim c.public_key [
    | none ↦ (h, false)
    | some key ↦ let (a, op) = Auth.is_op x now h.auth (some key) in (record h { auth = a }, op)
  ]

  -- `GetUser`.
  unfoldable pub get_user : ℕ → Host → Text → Host × Option ℕ
  get_user now h name =
      let (w, r) = member_by_id now h.world name in
      (on_world h w, elim r [ none ↦ none | some p ↦ some (w.member p).user ])

  -- `target.Close()`.
  unfoldable pub close_user : Host → ℕ → Host
  close_user h u = on_world h (set_user h.world u (User.close (h.world.users u)))

  -- `if !room.IsOp(msg.From()) { return errors.New("must be op") }`, and the rest of the handler.
  unfoldable pub as_op : Ambient → Host → ℕ → (Host → HostOutcome) → HostOutcome
  as_op env h u rest =
      let (w, op) = Room.is_op env.now h.world u in
      if not op then refuse (on_world h w) (codes "must be op") else rest (on_world h w)

  -- The name of the user, as `%s` of `Name()`.
  abbrev pub shown : Host → ℕ → Text
  shown h u = User.name (h.world.users u)

  -- `d, _ = time.ParseDuration(text)`.
  abbrev pub duration : Ambient → Text → ℤ
  duration env text = elim (env.parse_duration text) [ Result.ok d ↦ d | Result.err e ↦ pos 0 ]
