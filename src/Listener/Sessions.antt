-- ===== src/Listener/Sessions.antt =====
-- What a session is that the listener hands over.
use ssh_chat.Prelude.{
  ◌≡◌, ap, ◌∙◌, true, if_neg, Option, none, some, List, [], ◌∷◌, ◌++◌, Text, codes, text_discrete,
  ok, arith, sym, Option-cases, inl, inr,
}
use ssh_chat.Session.{
  ServerConn, NewChannel, shell_acquired, SessionError, start_terminal, new_session,
}
use ssh_chat.Listener.{Handshake, opened, upgrade}

-- The channel is a session, was accepted, and its client asked for a shell in time.
pub record IsShell (ch : NewChannel) : Type 0 where
  pub session : ch.channel_type ≡ codes "session"
  pub taken : ch.accepts ≡ true
  pub shell : ch.signal ≡ shell_acquired

start_terminal-none : (ch : NewChannel) → start_terminal ch ≡ none → IsShell ch
unfolding start_terminal
start_terminal-none ch e = record {
  session = ground (arith, e);
  taken = ground (arith, e);
  shell = ground (arith, e);
}

abbrev Session : Type 0
Session = List Text × (Option NewChannel × Option SessionError)

first_of : (c ch : NewChannel) → some c ≡ some ch → c ≡ ch
first_of c ch e = ground (arith, e)

new_session-IsShell :
    (rejected : List Text) (chs : List NewChannel) (ch : NewChannel)
    → (new_session rejected chs).1 ≡ (some ch, none)
    → IsShell ch
unfolding new_session
new_session-IsShell rejected [] ch e = ground (arith, e)
new_session-IsShell rejected (c ∷ chs) ch e =
    elim (text_discrete c.channel_type (codes "session")) [
      | no n ↦ new_session-IsShell (rejected ++ c.channel_type ∷ []) chs ch (
          sym (
            ap (λ (r : Session). r.1)
              (if_neg (text_discrete c.channel_type (codes "session")) n _ _))
          ∙ e)
      | yes y ↦ elim (Option-cases (start_terminal c)) [
        | inl s ↦ rw (sym (first_of c ch (ground (arith, e, s)))) (start_terminal-none c s)
        | inr (x, s) ↦ ground (arith, e, s)
      ]
    ]

opened-IsShell :
    (conn conn' : ServerConn) (ch : NewChannel) (r : Option NewChannel × Option SessionError)
    → opened conn r ≡ ok (conn', ch)
    → r ≡ (some ch, none)
unfolding opened
opened-IsShell conn conn' ch (channel, some x) e = ground (arith, e)
opened-IsShell conn conn' ch (some channel, none) e = ground (arith, e)
opened-IsShell conn conn' ch (none, none) e = ground (arith, e)

-- A connection that is handed over has a channel of a session, which was accepted, and whose client
-- asked for a shell.
pub upgrade-IsShell :
    (handshake : Handshake) (conn : ServerConn) (ch : NewChannel)
    → upgrade handshake ≡ ok (conn, ch)
    → IsShell ch
unfolding upgrade
upgrade-IsShell none conn ch e = ground (arith, e)
upgrade-IsShell (some (c, channels)) conn ch e =
    new_session-IsShell [] channels ch (opened-IsShell c conn ch (new_session [] channels).1 e)
