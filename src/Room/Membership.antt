-- ===== src/Room/Membership.antt =====
-- Who is in the room after `Join`, `Leave` and `Rename` of chat/room.go.
use ssh_chat.Prelude.{
  ℕ, ◌≡◌, ◌≢◌, ◌⊎◌, refl, ap, sym, ◌∙◌, true, false, if◌then◌else◌, ite, if_neg, inl, inr,
  Bool-cases, Option-cases, Option, none, some, List, [], ◌∷◌, ◌++◌, map, Text, codes, decimal,
  Result, text_discrete, lookup, after, result, ok, err, arith,
}
use ssh_chat.Set.{Set, Item, SetError, collision, missing, val, itemize, key, value, is_nil, found}
use ssh_chat.Set
use ssh_chat.Set.Expiry.{live, add-live, replace-live, set-remove-live, get_present, get_absent}
use ssh_chat.History
use mathlib.Core.List.{append-nil, append_assoc}
use ssh_chat.Message.{Message, announce_msg}
use ssh_chat.User
use ssh_chat.Room.{
  member_by_id, member_of, World, Room, RoomError, in_set, admit, history_len, join, leave, rename,
  replay, send, send_to, set_member,
}

-- The entry that a reader of the room finds under a name.
abbrev pub in_room : ℕ → World → Text → Option (Item ℕ)
in_room now w k = live now w.room.members k

replay-room : (w : World) (u : ℕ) (ms : List (Option Message)) → (replay w u ms).room ≡ w.room
unfolding replay send_to
replay-room w u [] = refl
replay-room w u (none ∷ ms) = replay-room w u ms
replay-room w u (some m ∷ ms) = replay-room (send_to w u m) u ms

module _ (now : ℕ) (w : World) (u : ℕ) where
  abbrev id : Text
  id = (w.users u).id

  -- The entry that `Join` adds.
  abbrev pub entry : Item ℕ
  entry = itemize id (val w.fresh)

  join_taken :
      (e : SetError)
      → id ≢ []
      → result (Set.add now w.room.members entry) ≡ some e
      → join now w u ≡ (w, err (in_set e))
  unfolding join
  join_taken e n taken = if_neg (text_discrete id []) n _ _ ∙ rw taken refl

  join_free :
      id ≢ []
      → result (Set.add now w.room.members entry) ≡ none
      → join now w u ≡ (admit now w u (after (Set.add now w.room.members entry)), ok w.fresh)
  unfolding join
  join_free n free = if_neg (text_discrete id []) n _ _ ∙ rw free refl

  admit-members : (s : Set ℕ) → (admit now w u s).room.members ≡ s
  unfolding admit send set_member
  admit-members s =
      ap (λ (r : Room). r.members) (replay-room _ u (History.get w.room.history history_len))

  add-entry :
      (later : ℕ) (k : Text)
      → (result (Set.add now w.room.members entry)
          ≡ (if found (in_room now w id) then some collision else none))
        × (live later (after (Set.add now w.room.members entry)) k ≡ (
            if found (in_room now w id)
            then in_room later w k
            else ite
                (text_discrete (w.room.members.normalize id) (w.room.members.normalize k))
                (some entry)
                (in_room later w k)))
  unfolding key value is_nil
  add-entry later k = add-live now later w.room.members entry k

pub somes : List (Option Message) → List Message
somes [] = []
somes (none ∷ ms) = somes ms
somes (some m ∷ ms) = m ∷ somes ms

replay-sent :
    (w : World) (u : ℕ) (ms : List (Option Message))
    → (replay w u ms).sent ≡ w.sent ++ map (λ m. (u, m)) (somes ms)
unfolding replay send_to somes
replay-sent w u [] = sym (append-nil w.sent)
replay-sent w u (none ∷ ms) = replay-sent w u ms
replay-sent w u (some m ∷ ms) =
    replay-sent (send_to w u m) u ms
    ∙ append_assoc w.sent ((u, m) ∷ []) (map (λ m. (u, m)) (somes ms))

-- The recent messages that a user is sent when it joins, and the announcement to the room.
abbrev pub recent : World → List Message
recent w = somes (History.get w.room.history history_len)

module _ (now : ℕ) (w : World) (u : ℕ) where
  abbrev pub joined_text : Text
  joined_text =
      let connected = Set.len (after (Set.add now w.room.members (entry now w u))) in
      User.name (w.users u) ++ codes " joined. (Connected: " ++ decimal connected ++ codes ")"

  admit-sent : (s : Set ℕ) → (admit now w u s).sent ≡ w.sent ++ map (λ m. (u, m)) (recent w)
  unfolding admit send set_member
  admit-sent s = replay-sent _ u (History.get w.room.history history_len)

  admit-broadcasts :
      let s = after (Set.add now w.room.members (entry now w u)) in
      (admit now w u s).room.broadcasts ≡ w.room.broadcasts ++ announce_msg joined_text now ∷ []
  unfolding admit send set_member
  admit-broadcasts =
      ap (λ (r : Room). r.broadcasts ++ announce_msg joined_text now ∷ [])
        (replay-room _ u (History.get w.room.history history_len))

  -- `Join` of a user whose name is not empty fails exactly when the name, up to the normalization
  -- of names, is a live member's, and then it changes nothing at all. Otherwise the new member is
  -- found under its name from then on and every other name as before, the user, and nobody else,
  -- is sent the recent messages of the history, and the room is sent one announcement.
  pub join-in_room :
      (later : ℕ) (k : Text)
      → (w.users u).id ≢ []
      → (found (in_room now w (w.users u).id) ≡ true) × (join now w u ≡ (w, err (in_set collision)))
        ⊎ (found (in_room now w (w.users u).id) ≡ false)
          × (result (join now w u) ≡ ok w.fresh)
          × (in_room later (after (join now w u)) k
              ≡ ite
                  (text_discrete
                    (w.room.members.normalize (w.users u).id)
                    (w.room.members.normalize k))
                  (some (entry now w u))
                  (in_room later w k))
          × ((after (join now w u)).sent ≡ w.sent ++ map (λ m. (u, m)) (recent w))
          × ((after (join now w u)).room.broadcasts
              ≡ w.room.broadcasts ++ announce_msg joined_text now ∷ [])
  join-in_room later k n =
      let a = add-entry now w u later k in
      elim (Bool-cases (found (in_room now w (w.users u).id))) [
        | inl taken ↦ inl (taken, join_taken now w u collision n (a.0 ∙ rw taken refl))
        | inr free ↦
            let j = join_free now w u n (a.0 ∙ rw free refl) in
            inr (
              free,
              ap result j,
              ap (λ r. in_room later (after r) k) j
                  ∙ ap (λ s. live later s k) (admit-members now w u _)
                  ∙ a.1
                  ∙ rw free refl,
              ap (λ (r : World × Result RoomError ℕ). (after r).sent) j ∙ admit-sent _,
              ap (λ (r : World × Result RoomError ℕ). (after r).room.broadcasts) j
                  ∙ admit-broadcasts,
            )
      ]

leave_gone :
    (now : ℕ) (since : Text) (w : World) (u : ℕ)
    → result (Set.remove w.room.members (w.users u).id) ≡ none
    → (result (leave now since w u) ≡ none)
      × ((after (leave now since w u)).room.members
          ≡ after (Set.remove w.room.members (w.users u).id))
unfolding leave send
leave_gone now since w u h = (rw (h, leave) refl, rw (h, leave) refl)

leave_missing :
    (now : ℕ) (since : Text) (w : World) (u : ℕ)
    → result (Set.remove w.room.members (w.users u).id) ≡ some missing
    → leave now since w u ≡ (w, some (in_set missing))
unfolding leave
leave_missing now since w u h = rw (h, leave) refl

remove_missing :
    (s : Set ℕ) (k : Text)
    → found (lookup (s.normalize k) s.table) ≡ false
    → after (Set.remove s k) ≡ s
unfolding Set.remove found
remove_missing s k h = ground arith

-- `Leave` fails exactly when nothing is stored under the user's name, and then changes nothing.
-- Otherwise the name is free for every later reader, and every other name is as before.
pub leave-in_room :
    (now later : ℕ) (since : Text) (w : World) (u : ℕ) (k : Text)
    → let members = w.room.members in
      let id = (w.users u).id in
      let stored = found (lookup (members.normalize id) members.table) in
      (result (leave now since w u) ≡ (if stored then none else some (in_set missing)))
      × (stored ≡ false → after (leave now since w u) ≡ w)
      × (in_room later (after (leave now since w u)) k
          ≡ ite
              (text_discrete (members.normalize id) (members.normalize k))
              none
              (in_room later w k))
leave-in_room now later since w u k =
    let members = w.room.members in
    let id = (w.users u).id in
    let r = set-remove-live later members (entry now w u) id k in
    elim (Bool-cases (found (lookup (members.normalize id) members.table))) [
      | inl stored ↦
          let g = leave_gone now since w u (r.3 ∙ rw stored refl) in
          (g.0 ∙ rw stored refl, λ no. ground (arith, stored, no), rw (g.1) (r.2))
      | inr free ↦
          let g = leave_missing now since w u (r.3 ∙ rw free refl) in
          (
            rw g (rw free refl),
            λ no. rw g refl,
            rw g (ap (λ s. live later s k) (sym (remove_missing members id free)) ∙ r.2),
          )
    ]

rename_done :
    (now : ℕ) (w : World) (old : Text) (p : ℕ)
    → (w.users (w.member p).user).id ≢ []
    → result (Set.replace w.room.members old (itemize (w.users (w.member p).user).id (val p)))
      ≡ none
    → (result (rename now w old p) ≡ none)
      × ((after (rename now w old p)).room.members
          ≡ after (Set.replace w.room.members old (itemize (w.users (w.member p).user).id (val p))))
unfolding rename send
rename_done now w old p n h = (
  rw (if_neg (text_discrete (w.users (w.member p).user).id []) n _ _) (rw h refl),
  rw (if_neg (text_discrete (w.users (w.member p).user).id []) n _ _) (rw h refl),
)

rename_fails :
    (now : ℕ) (w : World) (old : Text) (p : ℕ) (e : SetError)
    → (w.users (w.member p).user).id ≢ []
    → result (Set.replace w.room.members old (itemize (w.users (w.member p).user).id (val p)))
      ≡ some e
    → rename now w old p ≡ (w, some (in_set e))
unfolding rename
rename_fails now w old p e n h =
    if_neg (text_discrete (w.users (w.member p).user).id []) n _ _ ∙ rw h refl

rename_refused :
    (now : ℕ) (w : World) (old : Text) (p : ℕ)
    → (w.users (w.member p).user).id ≢ []
    → result (rename now w old p) ≢ none
    → after (rename now w old p) ≡ w
rename_refused now w old p n h =
    elim (Option-cases
      (result (Set.replace w.room.members old (itemize (w.users (w.member p).user).id (val p))))) [
        | inl e ↦ absurd (h ((rename_done now w old p n e).0))
        | inr (x, e) ↦ ap after (rename_fails now w old p x n e)
      ]

-- A `Rename` to a name that is not empty and that succeeds moves the member: a later reader finds
-- it under its new name, nobody under the old one (unless the two are one name after
-- normalization), and every other name as before. One that fails changes nothing.
pub rename-in_room :
    (now later : ℕ) (w : World) (old : Text) (p : ℕ) (k : Text)
    → let members = w.room.members in
      let id = (w.users (w.member p).user).id in
      id ≢ []
      → (result (rename now w old p) ≢ none → after (rename now w old p) ≡ w)
        × (result (rename now w old p) ≡ none
            → in_room later (after (rename now w old p)) k
              ≡ ite
                  (text_discrete (members.normalize id) (members.normalize k))
                  (some (itemize id (val p)))
                  (ite
                    (text_discrete (members.normalize old) (members.normalize k))
                    none
                    (in_room later w k)))
unfolding key value is_nil
rename-in_room now later w old p k n = (
  rename_refused now w old p n,
  λ h.
      elim (Option-cases (
        result (Set.replace w.room.members old (itemize (w.users (w.member p).user).id (val p))))) [
          | inl e ↦ rw ((rename_done now w old p n e).1) (
              replace-live later w.room.members old (itemize (w.users (w.member p).user).id (val p))
                k e)
          | inr (x, e) ↦ ground (arith, h, ap result (rename_fails now w old p x n e))
        ],
)

-- A member that stands in the room under a name is found, and nothing changes.
pub member_by_id_found :
    (now : ℕ) (w : World) (id j : Text) (p : ℕ)
    → lookup (w.room.members.normalize id) w.room.members.table ≡ some (itemize j (val p))
    → member_by_id now w id ≡ (w, some p)
unfolding member_by_id is_nil value member_of
member_by_id_found now w id j p e =
    rw (get_present now w.room.members id (itemize j (val p)) e refl, member_by_id) refl

pub member_by_id_absent :
    (now : ℕ) (w : World) (id : Text)
    → lookup (w.room.members.normalize id) w.room.members.table ≡ none
    → member_by_id now w id ≡ (w, none)
unfolding member_by_id
member_by_id_absent now w id e = rw (get_absent now w.room.members id e, member_by_id) refl
