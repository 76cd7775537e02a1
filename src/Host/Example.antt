-- ===== src/Host/Example.antt =====
-- A host with two members, one of them an operator, for the tests.
use ssh_chat.Prelude.{
  ℕ, zero, suc, ◌≡◌, refl, true, false, none, some, List, [], ◌∷◌, Text, codes, text_discrete,
  lookup, to_lower, after, result, err,
}
use ssh_chat.Auth.{Externals, new_auth}
use ssh_chat.Set.{is_in, Item, val, itemize, list_prefix}
use ssh_chat.Theme.{default_theme}
use ssh_chat.User.{User, new_user}
use ssh_chat.Room.{World, Member, new_room, member_by_id, member_of}
use ssh_chat.Room
use ssh_chat.Commands.{Ambient}
use ssh_chat.Host.{Connection, Outside, Host}

-- Keys and addresses are texts.
abbrev pub outer : Externals
outer = record {
  PublicKey = Text;
  marshal = λ k. k;
  sha256 = λ s. s;
  base64 = λ s. s;
  split_host = λ s. s;
  IpAddress = Text;
  parse_ip = λ s. some s;
  ip_string = λ ip. elim ip [ none ↦ codes "<nil>" | some s ↦ s ];
  tcp_string = λ ip. elim ip [ none ↦ codes ":0" | some s ↦ s ];
  parse_duration = λ s. none;
  read_csv = λ s. some (s, []);
  lower_beyond = λ s. s;
}

abbrev pub outside : Outside outer
outside = record {
  parse_authorized_key = λ s. some s;
  quoted = λ s. s;
  since = λ now t. codes "a while";
  error_text = λ e. codes "no";
}

abbrev pub env : Ambient
env = record {
  now = 7;
  color_idx = 3;
  other_color_idx = 4;
  parse_duration = λ s. err (codes "invalid duration");
  zone_name = λ z t. codes "UTC";
}

abbrev pub member_at : ℕ → Member
member_at zero = record { user = 0; is_op = true; is_muted = false }
member_at (suc p) = record { user = 1; is_op = false; is_muted = false }

abbrev pub user_at : ℕ → User
user_at zero = new_user (λ s. s) 0 0 (codes "ann")
user_at (suc u) = new_user (λ s. s) 0 0 (codes "bob")

abbrev pub table : List (Text × Item ℕ)
table =
    (codes "ann", itemize (codes "ann") (val 0)) ∷ (codes "bob", itemize (codes "bob") (val 1)) ∷ []

abbrev pub conn_of : Text → Connection outer
conn_of name = record {
  name = name;
  public_key = some name;
  remote_addr = name;
  client_version = codes "SSH";
}

abbrev pub host : Host outer
host = record {
  world = record {
    room = record (new_room (λ s. s)) {
      members = record { table = table; normalize = to_lower (λ s. s) };
    };
    users = user_at;
    member = member_at;
    fresh = 2;
    sent = [];
    spawned = [];
  };
  conn = λ u. conn_of (codes "key");
  auth = new_auth outer;
  version = codes "1";
  time_started = 0;
  theme = default_theme;
  motd = codes "welcome";
  count = 0;
  get_motd = none;
  echoed = [];
}

-- Ann is an operator of the room, and Bob is in it.
pub ann_op : result (Room.is_op env.now host.world 0) ≡ true
unfolding Room.is_op to_lower lookup text_discrete ssh_chat.Set.get new_user
ann_op = refl

pub bob_found :
    result (member_by_id env.now (after (Room.is_op env.now host.world 0)) (codes "bob")) ≡ some 1
unfolding Room.is_op to_lower lookup text_discrete ssh_chat.Set.get new_user member_by_id
bob_found = refl
