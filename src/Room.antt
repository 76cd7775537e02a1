-- ===== src/Room.antt =====
-- chat/room.go: who is in the room, and who is sent what. The users and the members are pointers
-- into stores, since the room, the ignore lists and the connections share them. A call of
-- `User.Send` is recorded in `sent`, in the order of the calls; the channel behind it is modelled
-- in User/Channel. The room's own channel `broadcast` is the list of what `Room.Send` put there
-- (where Go's `Send` waits while ten messages are in it), and `spawned` holds the messages handed
-- to `go r.HandleMsg`. Logging is left out.
pub mod Delivery
pub mod Broadcast
pub mod Membership
mod Tests
use ssh_chat.Prelude.{
  ℕ, suc, Bool, true, false, not, ◌&&◌, if◌then◌else◌, ite, ◌==◌, Option, none, some, List, [], ◌∷◌,
  ◌++◌, Text, codes, text_discrete, Result, ok, err, after, result, decimal,
}
use ssh_chat.Set.{Set, Item, Value, SetError, val, nil, truth, itemize, value, is_in}
use ssh_chat.Set
use ssh_chat.History.{History, new_history}
use ssh_chat.History
use ssh_chat.Message.{
  Message, Kind, from, kind, command, addressed, announcement, broadcast, announce_msg, system_msg,
}
use ssh_chat.User.{User}
use ssh_chat.User

pub data RoomError : Type 0 where
  invalid_name : RoomError
  in_set : SetError → RoomError

pub record Member : Type 0 where
  pub user : ℕ
  pub is_op : Bool
  pub is_muted : Bool

pub record Room : Type 0 where
  pub topic : Text
  pub history : History Message
  pub broadcasts : List Message
  pub closed : Bool
  pub members : Set ℕ

-- The room with the stores and what was sent. `fresh` is the next free pointer to a member.
pub record World : Type 0 where
  pub room : Room
  pub users : ℕ → User
  pub member : ℕ → Member
  pub fresh : ℕ
  pub sent : List (ℕ × Message)
  pub spawned : List Message

abbrev pub history_len : ℕ
history_len = 20

unfoldable pub new_room : (Text → Text) → Room
new_room beyond = record {
  topic = [];
  history = new_history history_len;
  broadcasts = [];
  closed = false;
  members = Set.new beyond;
}

-- `SetLogging`.
unfoldable pub set_logging : Room → Room
set_logging r = record r { history = History.set_output r.history }

-- `users[u] = v` and `member[p] = m`.
unfoldable pub set_user : World → ℕ → User → World
set_user w u v = record w { users = λ i. if u == i then v else w.users i }

unfoldable pub set_member : World → ℕ → Member → World
set_member w p m = record w { member = λ i. if p == i then m else w.member i }

-- The pointer in `item.Value().(*Member)`. The room stores no other values.
unfoldable pub member_of : Value ℕ → Option ℕ
member_of nil = none
member_of truth = none
member_of (val p) = some p

unfoldable pub set_mute : World → ℕ → Bool → World
unfolding set_member
set_mute w p muted = set_member w p (record (w.member p) { is_muted = muted })

-- `user.Send(m)`.
unfoldable pub send_to : World → ℕ → Message → World
send_to w u m = record w { sent = w.sent ++ (u, m) ∷ [] }

-- `Room.Send`, to a channel that is open: one after `Close` panics, which is not modelled.
unfoldable pub send : World → Message → World
send w m = record w { room = record w.room { broadcasts = w.room.broadcasts ++ m ∷ [] } }

abbrev set_members : World → Set ℕ → World
set_members w s = record w { room = record w.room { members = s } }

-- `user.Ignored.In(fromID)`, which may drop an expired entry.
unfoldable pub ignores : ℕ → World → ℕ → Text → World × Bool
unfolding set_user
ignores now w u from_id =
    let (s, b) = is_in now (w.users u).ignored from_id in
    (set_user w u (record (w.users u) { ignored = s }), b)

abbrev pub is_announcement : Kind → Bool
is_announcement announcement = true
is_announcement _ = false

-- The callback of the broadcast.
unfoldable pub deliver : ℕ → Message → Text → Text → Item ℕ → World → World × Option (Unit {0})
unfolding member_of send_to
deliver now m from_id key it w = elim (member_of (value now it)) [
  | none ↦ (w, none)
  | some p ↦
      let u = (w.member p).user in
      let (w', ignored) = ignores now w u from_id in
      if ignored
      then (w', none)
      else if is_announcement (kind m) && (w'.users u).config.quiet
      then (w', none)
      else (send_to w' u m, none)
]

-- `r.history.Add(m)`, and `r.Members.Each` with that callback.
unfoldable pub broadcast_all : ℕ → World → Message → Text → World
unfolding deliver
broadcast_all now w m from_id =
    let w' = record w { room = record w.room { history = History.add w.room.history m } } in
    let r = Set.each (deliver now m from_id) now w'.room.members w' in set_members r.1 r.0

-- The commands of a room: what a command message does, and the error that it returns.
abbrev pub Commands : Type 0
Commands = ℕ → World → Message → World × Option Text

-- The switch on the type of the message.
unfoldable pub dispatch : Commands → ℕ → World → Message → Text → World
unfolding send_to broadcast_all
dispatch run now w m from_id = elim (kind m) [
  | command ↦
      let (w', e) = run now w m in
      elim e [
        | none ↦ w'
        | some text ↦ elim (from m) [
          | none ↦ w'
          | some u ↦ record w' {
            spawned = w'.spawned ++ system_msg u (codes "Err: " ++ text) now ∷ [];
          }
        ]
      ]
  | addressed u ↦
      let (w', ignored) = ignores now w u from_id in if ignored then w' else send_to w' u m
  | announcement ↦ broadcast_all now w m from_id
  | broadcast ↦ broadcast_all now w m from_id
]

abbrev pub is_command : Kind → Bool
is_command command = true
is_command _ = false

abbrev pub from_id_of : World → Message → Text
from_id_of w m = elim (from m) [ none ↦ [] | some u ↦ (w.users u).id ]

-- What `HandleMsg` does with a message that has a sender, once the members were asked for it: one
-- from nobody in the room is dropped, and a muted member's comes back to that member alone.
unfoldable pub handle_from :
    Commands → ℕ → World → Message → Text → Set ℕ × Result SetError (Item ℕ) → World
unfolding dispatch member_of send_to
handle_from run now w m from_id (s, err e) = set_members w s
handle_from run now w m from_id (s, ok it) =
    let w' = set_members w s in
    elim (member_of (value now it)) [
      | none ↦ dispatch run now w' m from_id
      | some p ↦
          if (w'.member p).is_muted
          then (if is_command (kind m) then w' else send_to w' (w'.member p).user m)
          else dispatch run now w' m from_id
    ]

unfoldable pub handle_msg : Commands → ℕ → World → Message → World
unfolding dispatch handle_from
handle_msg run now w m =
    let from_id = from_id_of w m in
    ite (text_discrete from_id []) (dispatch run now w m from_id)
      (handle_from run now w m from_id (Set.get now w.room.members from_id))

-- A round of the loop of `Serve`, if there is a message to take from the channel: it goes to a
-- goroutine of its own.
unfoldable pub serve_round : World → Option World
serve_round w = elim w.room.broadcasts [
  | [] ↦ none
  | m ∷ ms ↦
      some (record w { room = record w.room { broadcasts = ms }; spawned = w.spawned ++ m ∷ [] })
]

-- `History`: the recent messages for a user.
unfoldable pub replay : World → ℕ → List (Option Message) → World
unfolding send_to
replay w u [] = w
replay w u (none ∷ ms) = replay w u ms
replay w u (some m ∷ ms) = replay (send_to w u m) u ms

-- The rest of `Join`, with the members after the new one was added: the member is a new one, of the
-- user alone; the user is sent the history, and the room an announcement.
unfoldable pub admit : ℕ → World → ℕ → Set ℕ → World
unfolding replay send set_member
admit now w u s =
    let member : Member = record { user = u; is_op = false; is_muted = false } in
    let w1 = record (set_member (set_members w s) w.fresh member) { fresh = suc w.fresh } in
    let text =
      User.name (w.users u) ++ codes " joined. (Connected: " ++ decimal (Set.len s) ++ codes ")" in
    send (replay w1 u (History.get w.room.history history_len)) (announce_msg text now)

unfoldable pub join : ℕ → World → ℕ → World × Result RoomError ℕ
unfolding admit
join now w u =
    ite (text_discrete (w.users u).id []) (w, err invalid_name)
      (let (s, e) = Set.add now w.room.members (itemize (w.users u).id (val w.fresh)) in
        elim e [ some e' ↦ (w, err (in_set e')) | none ↦ (admit now w u s, ok w.fresh) ])

-- `Leave`. The text of the time since the user joined is an argument.
unfoldable pub leave : ℕ → Text → World → ℕ → World × Option RoomError
unfolding send
leave now since w u =
    let (s, e) = Set.remove w.room.members (w.users u).id in
    elim e [
      | some e' ↦ (w, some (in_set e'))
      | none ↦ (
        send (set_members w s) (
            announce_msg (User.name (w.users u) ++ codes " left. (After " ++ since ++ codes ")")
              now),
        none,
      )
    ]

-- `Rename`, for a member whose user has its new name already.
unfoldable pub rename : ℕ → World → Text → ℕ → World × Option RoomError
unfolding send
rename now w old_id p =
    let id = (w.users (w.member p).user).id in
    ite (text_discrete id []) (w, some invalid_name)
      (let (s, e) = Set.replace w.room.members old_id (itemize id (val p)) in
        elim e [
          | some e' ↦ (w, some (in_set e'))
          | none ↦ (
            send (set_members w s)
                (announce_msg (old_id ++ codes " is now known as " ++ id ++ codes ".") now),
            none,
          )
        ])

-- `MemberByID`.
unfoldable pub member_by_id : ℕ → World → Text → World × Option ℕ
unfolding member_of
member_by_id now w id =
    let (s, r) = Set.get now w.room.members id in
    (set_members w s, elim r [ err e ↦ none | ok it ↦ member_of (value now it) ])

-- `Member`: the member of that name, if it is the same user.
unfoldable pub member_for : ℕ → World → ℕ → World × Option ℕ
unfolding member_by_id
member_for now w u =
    let (w', r) = member_by_id now w (w.users u).id in
    elim r [ none ↦ (w', none) | some p ↦ (w', if (w'.member p).user == u then some p else none) ]

unfoldable pub is_op : ℕ → World → ℕ → World × Bool
unfolding member_for
is_op now w u =
    let (w', r) = member_for now w u in (w', elim r [ none ↦ false | some p ↦ (w'.member p).is_op ])

unfoldable pub set_topic : World → Text → World
set_topic w s = record w { room = record w.room { topic = s } }

-- The callback of `Close`.
unfoldable pub close_member : ℕ → Text → Item ℕ → World → World × Option (Unit {0})
unfolding member_of set_user
close_member now key it w = elim (member_of (value now it)) [
  | none ↦ (w, none)
  | some p ↦ (set_user w (w.member p).user (User.close (w.users (w.member p).user)), none)
]

-- `Close`, once: every member's user is closed, and the room is left empty.
unfoldable pub close : ℕ → World → World
unfolding close_member
close now w =
    if w.room.closed
    then w
    else (let w' = record w { room = record w.room { closed = true } } in
        let r = Set.each (close_member now) now w'.room.members w' in
        set_members r.1 (Set.clear r.0).0)
