-- ===== src/User/Tests.antt =====
-- A run of the channel of a user, and the theorem on it at that run.
use ssh_chat.Prelude.{true, refl, [], ◌∷◌, Text, codes, arith}
use ssh_chat.Message.{Message, public_msg}
use ssh_chat.User.{new_user, close}
use ssh_chat.User.Channel.{
  Channel, Reach, here, next, sends, queued, consumes, closes, Fifo, Reach-Fifo,
}

abbrev beyond : Text → Text
beyond s = s

abbrev hello : Message
hello = public_msg 1 (codes "hello") 3

abbrev start : Channel
start = record { user = new_user beyond 0 0 (codes "ann"); accepted = []; shown = [] }

abbrev finish : Channel
finish = record {
  user = record (new_user beyond 0 0 (codes "ann")) { msg = hello ∷ []; done = true };
  accepted = hello ∷ hello ∷ [];
  shown = hello ∷ [];
}

-- A message is sent and consumed, another is sent, and the user is closed.
busy : Reach start finish
unfolding new_user close
busy =
    next
      (next (next (next here (sends hello (queued (omega arith)))) (consumes hello [] refl))
        (sends hello (queued (omega arith))))
      closes

start-Fifo : Fifo start
unfolding new_user
start-Fifo = record { order = refl; bounded = omega arith }

Reach-Fifo_example : Fifo finish
Reach-Fifo_example = Reach-Fifo busy start-Fifo
