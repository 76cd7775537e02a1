-- ===== src/Commands/Tests.antt =====
-- A room with two members, one of them an operator, and what commands do there.
use ssh_chat.Prelude.{
  ℕ, zero, suc, ◌≡◌, ◌≢◌, refl, true, false, not, ◌&&◌, if◌then◌else◌, ite, ◌==◌, Option, none,
  some, List, [], ◌∷◌, ◌++◌, Text, codes, text_discrete, lookup, to_lower, trim_left, trim_space,
  split_at, returns, space_size, after, result, err, arith,
}
use ssh_chat.Sanitize
use ssh_chat.Set.{Item, val, itemize}
use ssh_chat.Message.{Message, kind, private_msg, public_msg}
use ssh_chat.User.{User, new_user}
use ssh_chat.Room.{World, Room, Member, new_room, handle_msg, from_id_of, member_by_id}
use ssh_chat.Room
use ssh_chat.Room.Delivery.{ignoring}
use ssh_chat.Commands.{Ambient, Request}
use ssh_chat.Commands.Members.{ignore, focus}
use ssh_chat.Commands.Focusing.{focus_text, some_name, is_named, focus-render}
use ssh_chat.Render.{Printing, render, stamped, render_for}
use ssh_chat.Commands.Builtin.{perform, room_commands, default_commands}
use ssh_chat.Commands.Ignoring.{ignored_name, received, ignore-ignoring, ignore-received}
use ssh_chat.Room.Broadcast.{Present}

abbrev beyond : Text → Text
beyond s = s

abbrev member_at : ℕ → Member
member_at zero = record { user = 0; is_op = true; is_muted = false }
member_at (suc p) = record { user = 1; is_op = false; is_muted = false }

abbrev user_at : ℕ → User
user_at zero = new_user beyond 0 0 (codes "Ann")
user_at (suc u) = new_user beyond 0 0 (codes "bob")

abbrev table : List (Text × Item ℕ)
table =
    (codes "ann", itemize (codes "Ann") (val 0)) ∷ (codes "bob", itemize (codes "bob") (val 1)) ∷ []

abbrev two : World
two = record {
  room = record (new_room beyond) {
    members = record { table = table; normalize = to_lower beyond };
  };
  users = user_at;
  member = member_at;
  fresh = 2;
  sent = [];
  spawned = [];
}

abbrev env : Ambient
env = record {
  now = 7;
  color_idx = 3;
  other_color_idx = 4;
  parse_duration = λ s. err (codes "invalid duration");
  zone_name = λ z t. codes "UTC";
}

abbrev bob_named : ℕ → Text
bob_named v = if 1 == v then Sanitize.name (codes "rob!") else (two.users v).id

abbrev mute_bob : Request
mute_bob = record {
  from = 0;
  body = codes "/mute bob";
  command = codes "/mute";
  args = codes "bob" ∷ [];
}

abbrev target : Option ℕ
target = result (member_by_id 7 (after (Room.is_op 7 two 0)) (codes "bob"))

abbrev ignore_ann : Request
ignore_ann = record {
  from = 1;
  body = codes "/ignore Ann";
  command = codes "/ignore";
  args = codes "Ann" ∷ [];
}

ann_named : ignored_name env two ignore_ann ≢ []
unfolding trim_left trim_space space_size
ann_named = ground arith

ann_other : ignored_name env two ignore_ann ≢ (two.users 1).id
unfolding trim_left trim_space space_size new_user
ann_other = ground arith

ann_here :
    lookup (two.room.members.normalize (ignored_name env two ignore_ann)) table
    ≡ some (itemize (codes "Ann") (val 0))
unfolding trim_left trim_space space_size to_lower lookup text_discrete
ann_here = refl

ignore-ignoring_example :
    (result (ignore env two ignore_ann) ≡ (
      if ignoring 7 two 1 (ignored_name env two ignore_ann)
      then some (codes "user already ignored: " ++ ignored_name env two ignore_ann)
      else none))
    × (ignoring 9 (after (ignore env two ignore_ann)) 1 (codes "ANN") ≡ (
        if not (ignoring 7 two 1 (ignored_name env two ignore_ann)) && 1 == 1
        then ite
            (text_discrete
              ((two.users 1).ignored.normalize (ignored_name env two ignore_ann))
              ((two.users 1).ignored.normalize (codes "ANN")))
            true
            (ignoring 9 two 1 (codes "ANN"))
        else ignoring 9 two 1 (codes "ANN")))
ignore-ignoring_example =
    ignore-ignoring env two ignore_ann 0 (codes "Ann") ann_named ann_other ann_here 9 1
      (codes "ANN")

abbrev ignoring_ann : World
ignoring_ann = after (ignore env two ignore_ann)

abbrev idle : Room.Commands
idle now w m = (w, none)

-- What Ann writes to Bob next.
abbrev by_ann : Message
by_ann = private_msg 0 1 (codes "hi") 8

ann_ignored : result (ignore env two ignore_ann) ≡ none
unfolding ignore text_discrete trim_space trim_left new_user member_by_id ssh_chat.Set.get lookup
    to_lower ssh_chat.Set.add ssh_chat.Set.new
ann_ignored = refl

ann_id : from_id_of ignoring_ann by_ann ≡ codes "Ann"
unfolding ignore ssh_chat.Message.from trim_space text_discrete trim_left new_user member_by_id
    ssh_chat.Set.get lookup to_lower ssh_chat.Set.add ssh_chat.Set.new Room.send
ann_id = refl

ann_writes : from_id_of ignoring_ann by_ann ≢ []
ann_writes = ground (arith, ann_id)

ann_folded :
    (two.users 1).ignored.normalize (ignored_name env two ignore_ann)
    ≡ (two.users 1).ignored.normalize (from_id_of ignoring_ann by_ann)
unfolding ignore ssh_chat.Message.from trim_space text_discrete trim_left new_user member_by_id
    ssh_chat.Set.get lookup to_lower ssh_chat.Set.add ssh_chat.Set.new Room.send
ann_folded = refl

ann_stays : Present idle 9 ignoring_ann by_ann (codes "Ann") 0
unfolding ignore ssh_chat.Message.from trim_space text_discrete trim_left new_user member_by_id
    ssh_chat.Set.get lookup to_lower ssh_chat.Set.add ssh_chat.Set.new Room.send
ann_stays = refl

ann_heard : (ignoring_ann.member 0).is_muted ≡ false
unfolding ignore ssh_chat.Message.from trim_space text_discrete trim_left new_user member_by_id
    ssh_chat.Set.get lookup to_lower ssh_chat.Set.add ssh_chat.Set.new Room.send
ann_heard = refl

ignore-received_example :
    received 1 (handle_msg idle 9 ignoring_ann by_ann).sent ≡ received 1 ignoring_ann.sent
unfolding kind
ignore-received_example =
    ignore-received env two ignore_ann 0 (codes "Ann") ann_named ann_other ann_here ann_ignored idle
      9 by_ann 0 (codes "Ann") ann_writes ann_folded ann_stays ann_heard refl

-- Bob focuses on Ann and on Eve, and Ann writes.
abbrev focus_ann : Request
focus_ann = record {
  from = 1;
  body = codes "/focus ann eve";
  command = codes "/focus";
  args = codes "ann" ∷ codes "eve" ∷ [];
}

abbrev printing : Printing
printing = record {
  matches = λ name body. false;
  replace_all = λ name body s. body;
  show_time = λ format zone t. format;
}

focus_named : focus_text env two focus_ann ≡ codes "ann eve"
unfolding trim_left trim_space space_size
focus_named = refl

focus_given : focus_text env two focus_ann ≢ []
focus_given = ground (arith, focus_named)

focus_other : focus_text env two focus_ann ≢ codes "$"
focus_other = ground (arith, focus_named)

bob_apart : focus_ann.from ≢ 0
bob_apart = omega arith

focus-render_example :
    result
      (render printing 9 (after (focus env two focus_ann)).users 1 (public_msg 0 (codes "hi") 8))
    ≡ (if some_name (split_at (focus_text env two focus_ann) 32)
          && not (
              is_named
                (two.users 1).focused.normalize
                (split_at (focus_text env two focus_ann) 32)
                (two.users 0).id)
        then returns []
        else stamped printing
            (two.users 1).config
            8
            (render_for printing (two.users 1).config (two.users 0) (codes "hi")))
focus-render_example =
    focus-render env two focus_ann printing 9 0 8 (codes "hi") focus_given focus_other bob_apart

abbrev commands : Room.Commands
commands = room_commands (perform default_commands) default_commands env
