-- ===== src/Listener/Tests.antt =====
-- A listener that accepts two connections: one is handed over, and the other is in its handshake.
use ssh_chat.Prelude.{refl, true, none, some, [], ◌∷◌, codes}
use ssh_chat.Session.{ServerConn, NewChannel, shell_acquired}
use ssh_chat.Listener.{
  Link, accepted_link, Handshake, begin, handshaking, finish, upgrade, opened, Listener, listen_ssh,
  accept_conn, set_conn, accepts, begins, finishes, Steps, no_step, step, set_read_deadline,
  read_limit_conn,
}
use ssh_chat.Listener.Served.{AreSound, Steps-AreSound}

abbrev shell : NewChannel
shell = record { channel_type = codes "session"; accepts = true; signal = shell_acquired }

abbrev client : ServerConn
client = record { user = codes "ann"; extensions = none }

abbrev shaken : Handshake
shaken = some (client, shell ∷ [])

abbrev armed : Link
armed = record { limited = true; deadline = some 20000000005; closes = 0 }

abbrev two : Listener
two = accept_conn (accept_conn listen_ssh)

abbrev first_begun : Listener
first_begun = set_conn two 0 (begin true 5 accepted_link, handshaking)

abbrev first_done : Listener
first_done = set_conn first_begun 0 (finish armed shaken)

abbrev second_begun : Listener
second_begun = set_conn first_done 1 (begin true 6 accepted_link, handshaking)

later : Steps true first_done second_begun
unfolding listen_ssh accept_conn set_conn begin accepted_link finish upgrade opened
    set_read_deadline read_limit_conn
later =
    step first_done second_begun second_begun (begins first_done 1 6 accepted_link refl)
      (no_step second_begun)

run : Steps true listen_ssh second_begun
unfolding listen_ssh accept_conn set_conn begin accepted_link finish upgrade opened
    set_read_deadline read_limit_conn
run = step listen_ssh (accept_conn listen_ssh) second_begun (accepts listen_ssh refl) (
    step (accept_conn listen_ssh) two second_begun (accepts (accept_conn listen_ssh) refl) (
      step two first_begun second_begun (begins two 0 5 accepted_link refl) (
        step first_begun first_done second_begun (finishes first_begun 0 armed shaken refl) later)))

Steps-AreSound_example : AreSound true second_begun.conns
Steps-AreSound_example = Steps-AreSound true second_begun run
