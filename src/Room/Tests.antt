-- ===== src/Room/Tests.antt =====
-- A room with two members, one of them muted, and the theorems on the room at messages, joins and
-- leaves there.
use ssh_chat.Prelude.{
  ℕ, zero, suc, ◌≡◌, ◌≢◌, ◌⊎◌, map, refl, true, false, ite, none, some, List, [], ◌∷◌, ◌++◌, Text,
  codes, text_discrete, lookup, after, result, ok, err, to_lower, arith,
}
use ssh_chat.Set.{Set, Item, val, itemize, missing, collision, found}
use ssh_chat.Set
use ssh_chat.History
use ssh_chat.Message.{Message, from, broadcast, public_msg, kind, announce_msg}
use ssh_chat.User.{User, new_user}
use ssh_chat.Room.{
  World, Member, Commands, new_room, join, rename, handle_msg, ignores, from_id_of, in_set,
}
use ssh_chat.Room.Delivery.{hears, posts}
use ssh_chat.Room.Broadcast.{handle_msg-broadcast}
use ssh_chat.Room.Membership.{in_room, entry, recent, joined_text, join-in_room}

abbrev beyond : Text → Text
beyond s = s

abbrev member_at : ℕ → Member
member_at zero = record { user = 0; is_op = true; is_muted = false }
member_at (suc p) = record { user = 1; is_op = false; is_muted = true }

abbrev user_at : ℕ → User
user_at zero = new_user beyond 0 0 (codes "Ann")
user_at (suc zero) = new_user beyond 0 0 (codes "bob")
user_at (suc (suc u)) = new_user beyond 0 0 (codes "cy")

abbrev table : List (Text × Item ℕ)
table =
    (codes "ann", itemize (codes "Ann") (val 0)) ∷ (codes "bob", itemize (codes "bob") (val 1)) ∷ []

abbrev two : World
two = record {
  room = record (new_room beyond) {
    members = record { table = table; normalize = to_lower beyond };
  };
  users = user_at;
  member = member_at;
  fresh = 2;
  sent = [];
  spawned = [];
}

-- No command does anything.
abbrev idle : Commands
idle now w m = (w, none)

abbrev by_ann : Message
by_ann = public_msg 0 (codes "hi") 5

abbrev by_bob : Message
by_bob = public_msg 1 (codes "hi") 5

-- Ann and bob hear her.
both_hear : (handle_msg idle 7 two by_ann).sent ≡ (0, by_ann) ∷ (1, by_ann) ∷ []
unfolding handle_msg text_discrete from new_user Set.get lookup to_lower kind Set.each ignores
    Set.is_in Set.new
both_hear = refl

sends_ann : from_id_of two by_ann ≢ []
unfolding from new_user
sends_ann = ground arith

sends_bob : from_id_of two by_bob ≢ []
unfolding from new_user
sends_bob = ground arith

named_ann : (two.users 0).id ≢ []
unfolding new_user
named_ann = ground arith

ann_found :
    lookup (two.room.members.normalize (from_id_of two by_ann)) table
    ≡ some (itemize (codes "Ann") (val 0))
unfolding from new_user to_lower lookup text_discrete
ann_found = refl

bob_found :
    lookup (two.room.members.normalize (from_id_of two by_bob)) table
    ≡ some (itemize (codes "bob") (val 1))
unfolding from new_user to_lower lookup text_discrete
bob_found = refl

is_broadcast : kind by_ann ≡ broadcast
unfolding kind
is_broadcast = refl

handle_msg-broadcast_example :
    ((handle_msg idle 7 two by_ann).sent
      ≡ [] ++ posts by_ann (hears 7 two by_ann (from_id_of two by_ann) table))
    × ((handle_msg idle 7 two by_ann).room.history ≡ History.add two.room.history by_ann)
handle_msg-broadcast_example =
    handle_msg-broadcast idle 7 two by_ann 0 (codes "Ann") sends_ann ann_found refl is_broadcast

-- User 2 is called cy, which no member is.
named_cy : (two.users 2).id ≢ []
unfolding new_user
named_cy = ground arith

join-in_room_example :
    (found (in_room 7 two (two.users 2).id) ≡ true) × (join 7 two 2 ≡ (two, err (in_set collision)))
    ⊎ (found (in_room 7 two (two.users 2).id) ≡ false)
      × (result (join 7 two 2) ≡ ok 2)
      × (in_room 8 (after (join 7 two 2)) (codes "bob")
          ≡ ite
              (text_discrete
                (two.room.members.normalize (two.users 2).id)
                (two.room.members.normalize (codes "bob")))
              (some (entry 7 two 2))
              (in_room 8 two (codes "bob")))
      × ((after (join 7 two 2)).sent ≡ map (λ m. (2, m)) (recent two))
      × ((after (join 7 two 2)).room.broadcasts ≡ announce_msg (joined_text 7 two 2) 7 ∷ [])
unfolding new_room
join-in_room_example = join-in_room 7 two 2 8 (codes "bob") named_cy

-- User 0 was called Abe, and stands in the room under that name.
abbrev renamed : World
renamed = record two {
  room = record two.room {
    members = record {
      table = (codes "abe", itemize (codes "Abe") (val 0)) ∷ [];
      normalize = to_lower beyond;
    };
  };
}

renames : result (rename 7 renamed (codes "Abe") 0) ≡ none
unfolding rename new_user Set.replace to_lower lookup text_discrete Set.key
renames = refl
