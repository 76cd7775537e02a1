-- ===== src/Room/Broadcast.antt =====
-- The messages that `HandleMsg` of chat/room.go sends, for each kind of message.
use ssh_chat.Prelude.{
  ℕ, ◌≡◌, ◌≢◌, refl, ap, sym, ◌∙◌, true, false, if◌then◌else◌, if_neg, if_pos, inl, inr, Bool-cases,
  none, some, List, [], ◌∷◌, ◌++◌, Text, text_discrete, lookup, arith,
}
use mathlib.Core.List.{append-nil, append_assoc, map-append}
use ssh_chat.Set.{Item, val, itemize, value, is_nil, each, each_loop}
use ssh_chat.Set.Expiry.{get_present, get_absent}
use ssh_chat.History
use ssh_chat.Message.{Message, from, kind, addressed, announcement, broadcast}
use ssh_chat.Room.{
  World, Room, Commands, member_of, deliver, broadcast_all, dispatch, from_id_of, handle_from,
  handle_msg, send_to, is_command,
}
use ssh_chat.Room.Delivery.{
  Same, ignoring, left_out, heard, hears, posts, deliver-heard, ignores-Same, heard_nil,
}

Same-refl : (now : ℕ) (w : World) → Same now w w
Same-refl now w = record { lists = λ v k. refl; quiet = λ v. refl; members = refl; room = refl }

each_loop-hears :
    (now : ℕ) (w w' : World) (m : Message) (f : Text) (entries : List (Text × Item ℕ))
    → Same now w w'
    → let r = (each_loop (deliver now m f) now entries w').state in
      Same now w r × (r.sent ≡ w'.sent ++ posts m (hears now w m f entries))
unfolding each_loop hears
each_loop-hears now w w' m f [] s = (s, sym (append-nil w'.sent))
each_loop-hears now w w' m f ((k, it) ∷ rest) s = elim (Bool-cases (is_nil (value now it))) [
  | inl dead ↦
      rw (dead, each_loop) (rw (heard_nil now w m f it dead) (each_loop-hears now w w' m f rest s))
  | inr alive ↦
      let d = deliver-heard now w w' m f k it s in
      let later = each_loop-hears now w (deliver now m f k it w').0 m f rest d.1 in
      rw (alive, each_loop)
        (rw d.0 (
          later.0,
          later.1
              ∙ rw (d.2) (
                  append_assoc w'.sent (posts m (heard now w m f it))
                    (posts m (hears now w m f rest))
                  ∙ ap (◌++◌ w'.sent)
                      (sym (map-append (λ u. (u, m)) (heard now w m f it) (hears now w m f rest)))),
        ))
]

hears_room :
    (now : ℕ) (w : World) (r : Room) (m : Message) (f : Text) (entries : List (Text × Item ℕ))
    → hears now (record w { room = r }) m f entries ≡ hears now w m f entries
unfolding hears heard left_out
hears_room now w r m f [] = refl
hears_room now w r m f ((k, it) ∷ rest) =
    ap (◌++◌ (heard now w m f it)) (hears_room now w r m f rest)

-- A broadcast goes into the history, and is sent to those that hear it, in the order of the
-- traversal.
pub broadcast_all-hears :
    (now : ℕ) (w : World) (m : Message) (f : Text)
    → ((broadcast_all now w m f).sent ≡ w.sent ++ posts m (hears now w m f w.room.members.table))
      × ((broadcast_all now w m f).room.history ≡ History.add w.room.history m)
unfolding broadcast_all each
broadcast_all-hears now w m f =
    let r = record w.room { history = History.add w.room.history m } in
    let w0 = record w { room = r } in
    let e = each_loop-hears now w0 w0 m f w.room.members.table (Same-refl now w0) in
    (
      e.1 ∙ ap (λ us. w.sent ++ posts m us) (hears_room now w r m f w.room.members.table),
      ap (λ (q : Room). q.history) e.0.room,
    )

module _ (run : Commands) (now : ℕ) (w : World) (m : Message) where
  abbrev pub sender : Text
  sender = from_id_of w m

  -- The member `p` stands in the room under the sender's name.
  abbrev pub Present : Text → ℕ → Type 0
  Present k p =
      lookup (w.room.members.normalize sender) w.room.members.table ≡ some (itemize k (val p))

  pub handle_msg-Present :
      (p : ℕ) (k : Text)
      → sender ≢ []
      → Present k p
      → handle_msg run now w m ≡ (
          if (w.member p).is_muted
          then (if is_command (kind m) then w else send_to w (w.member p).user m)
          else dispatch run now w m sender)
  unfolding handle_msg handle_from is_nil value member_of
  handle_msg-Present p k n e =
      if_neg (text_discrete sender []) n _ _
      ∙ rw (get_present now w.room.members sender (itemize k (val p)) e refl) refl

  -- A message from a name that is not in the room is dropped: nothing at all changes.
  pub handle_msg_stranger :
      sender ≢ []
      → lookup (w.room.members.normalize sender) w.room.members.table ≡ none
      → handle_msg run now w m ≡ w
  unfolding handle_msg handle_from
  handle_msg_stranger n e =
      if_neg (text_discrete sender []) n _ _ ∙ rw (get_absent now w.room.members sender e) refl

  -- A message from a muted member changes nothing but that it is sent back to the member's user,
  -- and not even that if it is a command: no command runs, nobody else is sent it, and it does not
  -- enter the history.
  pub handle_msg-muted :
      (p : ℕ) (k : Text)
      → sender ≢ []
      → Present k p
      → (w.member p).is_muted ≡ true
      → handle_msg run now w m ≡ (
          if is_command (kind m)
          then w
          else record w { sent = w.sent ++ ((w.member p).user, m) ∷ [] })
  unfolding send_to
  handle_msg-muted p k n e muted = handle_msg-Present p k n e ∙ rw muted refl

  -- A public or emote message from a member that is not muted enters the history, and is sent, in
  -- the order of the traversal, to the users of exactly those members that do not ignore the
  -- sender.
  pub handle_msg-broadcast :
      (p : ℕ) (k : Text)
      → sender ≢ []
      → Present k p
      → (w.member p).is_muted ≡ false
      → kind m ≡ broadcast
      → ((handle_msg run now w m).sent
          ≡ w.sent ++ posts m (hears now w m sender w.room.members.table))
        × ((handle_msg run now w m).room.history ≡ History.add w.room.history m)
  unfolding dispatch
  handle_msg-broadcast p k n e heard kind_m =
      rw (handle_msg-Present p k n e)
        (rw heard (rw (kind_m, dispatch) (broadcast_all-hears now w m sender)))

  handle_msg_nobody : sender ≡ [] → handle_msg run now w m ≡ dispatch run now w m sender
  unfolding handle_msg
  handle_msg_nobody h = if_pos (text_discrete sender []) h _ _

  -- An announcement enters the history, and is sent to the users of exactly those members that are
  -- not quiet and do not ignore the empty name.
  pub handle_msg-announcement :
      from m ≡ none
      → kind m ≡ announcement
      → ((handle_msg run now w m).sent ≡ w.sent ++ posts m (hears now w m [] w.room.members.table))
        × ((handle_msg run now w m).room.history ≡ History.add w.room.history m)
  unfolding dispatch
  handle_msg-announcement f kind_m =
      let nobody : sender ≡ [] = ground (arith, f) in
      rw (handle_msg_nobody nobody)
        (rw (kind_m, dispatch) (rw nobody (broadcast_all-hears now w m [])))

  -- A private message from a member that is not muted goes to its addressee alone, or to nobody if
  -- the addressee ignores the sender; it does not enter the history.
  pub handle_msg-private :
      (p : ℕ) (k : Text) (v : ℕ)
      → sender ≢ []
      → Present k p
      → (w.member p).is_muted ≡ false
      → kind m ≡ addressed v
      → ((handle_msg run now w m).sent
          ≡ w.sent ++ (if ignoring now w v sender then [] else (v, m) ∷ []))
        × ((handle_msg run now w m).room ≡ w.room)
  unfolding dispatch send_to
  handle_msg-private p k v n e heard kind_m =
      let i = ignores-Same now w v sender in
      rw (handle_msg-Present p k n e)
        (rw heard (rw (kind_m, dispatch) (ground (arith, i.1, i.2, i.0.room, append-nil w.sent))))
