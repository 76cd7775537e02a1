-- ===== src/User/Channel.antt =====
-- The message channel of a user: `Send` by any goroutine and `Consume` by the user's own, as the
-- steps that the scheduler of the source may choose.
use ssh_chat.Prelude.{
  ℕ, ◌<◌, ◌≤◌, ◌≡◌, ap, refl, true, Option, none, some, List, [], ◌∷◌, ◌++◌, length, length-append,
  arith,
}
use mathlib.Core.List.{append_assoc}
use ssh_chat.Message.{Message}
use ssh_chat.User.{User, close}

-- `messageBuffer`.
abbrev pub message_buffer : ℕ
message_buffer = 5

pub data UserError : Type 0 where
  user_closed : UserError

-- A call of `Send`: what it does and returns. It fails at once on a closed user, which its `select`
-- may also overlook while there is room, and closes the user if the buffer stays full for the five
-- seconds of `messageTimeout`.
pub data Send (m : Message) (u : User) : User → Option UserError → Type 0 where
  refused : u.done ≡ true → Send m u u (some user_closed)
  queued : length u.msg < message_buffer → Send m u (record u { msg = u.msg ++ m ∷ [] }) none
  timed_out : message_buffer ≤ length u.msg → Send m u (close u) (some user_closed)

-- The user with the messages that `Send` has accepted and those that `Consume` has handled.
pub record Channel : Type 0 where
  pub user : User
  pub accepted : List Message
  pub shown : List Message

abbrev pub accept : Channel → Message → Option UserError → List Message
accept c m none = c.accepted ++ m ∷ []
accept c m (some e) = c.accepted

-- `Consume` handles the oldest message, or returns on a closed user; a screen that fails to write
-- closes the user. A `Close` may come at any time.
pub data Step (c : Channel) : Channel → Type 0 where
  sends :
      (m : Message) {u : User} {e : Option UserError}
      → Send m c.user u e
      → Step c (record c { user = u; accepted = accept c m e })
  consumes :
      (m : Message) (rest : List Message)
      → c.user.msg ≡ m ∷ rest
      → Step c (record c { user = record c.user { msg = rest }; shown = c.shown ++ m ∷ [] })
  closes : Step c (record c { user = close c.user })

pub data Reach (c : Channel) : Channel → Type 0 where
  here : Reach c c
  next : {d e : Channel} → Reach c d → Step d e → Reach c e

pub record Fifo (c : Channel) : Type 0 where
  pub order : c.accepted ≡ c.shown ++ c.user.msg
  pub bounded : length c.user.msg ≤ message_buffer

Send-Fifo :
    (c : Channel) (m : Message) {u : User} {e : Option UserError}
    → Send m c.user u e
    → Fifo c
    → Fifo (record c { user = u; accepted = accept c m e })
unfolding close
Send-Fifo c m (refused h) f = record { order = f.order; bounded = f.bounded }
Send-Fifo c m (queued h) f = record {
  order = rw f.order (append_assoc c.shown c.user.msg (m ∷ []));
  bounded = omega (arith, length-append c.user.msg (m ∷ []));
}
Send-Fifo c m (timed_out h) f = record { order = f.order; bounded = f.bounded }

Step-Fifo : {c d : Channel} → Step c d → Fifo c → Fifo d
unfolding close
Step-Fifo {c} (sends m s) f = Send-Fifo c m s f
Step-Fifo {c} (consumes m rest e) f = record {
  order = rw append_assoc (ground (arith, f.order, e));
  bounded = omega (arith, f.bounded, ap length e);
}
Step-Fifo closes f = record { order = f.order; bounded = f.bounded }

-- However sends, the consumer and closing interleave, the user is shown the accepted messages in
-- the order in which they were accepted, with none lost, doubled or swapped: what is not shown yet
-- is in the buffer, which never holds more than five.
pub Reach-Fifo : {c d : Channel} → Reach c d → Fifo c → Fifo d
Reach-Fifo here f = f
Reach-Fifo (next r s) f = Step-Fifo s (Reach-Fifo r f)

Step-done : {c d : Channel} → Step c d → c.user.done ≡ true → d.user.done ≡ true
unfolding close
Step-done (sends m (refused e)) h = h
Step-done (sends m (queued e)) h = h
Step-done (sends m (timed_out e)) h = refl
Step-done (consumes m rest e) h = h
Step-done closes h = refl

-- A user that is closed stays closed.
pub Reach-done : {c d : Channel} → Reach c d → c.user.done ≡ true → d.user.done ≡ true
Reach-done here h = h
Reach-done (next r s) h = Step-done s (Reach-done r h)
