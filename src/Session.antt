-- ===== src/Session.antt =====
-- sshd/terminal.go: the requests on the channel of a session, the environment that they set, and
-- closing. The packages ssh and terminal are parameters. Logging is left out.
pub mod Requests
pub mod Closing
mod Tests
use ssh_chat.Prelude.{
  ℕ, suc, Bool, true, false, not, if◌then◌else◌, ite, Option, none, some, List, [], ◌∷◌, ◌++◌, Text,
  codes, text_discrete, lookup, Run, panics, returns,
}
use ssh_chat.Pty.{parse_pty_request, parse_winch_request}

pub record EnvVar : Type 0 where
  pub key : Text
  pub value : Text

-- `EnvVar.String`.
unfoldable pub env_string : EnvVar → Text
env_string v = v.key ++ (codes "=" ++ v.value)

-- `Env.Get`, which looks for the key from the end.
unfoldable pub get_or : Text → List EnvVar → Text → Text
get_or found [] key = found
get_or found (v ∷ env) key = get_or (ite (text_discrete v.key key) v.value found) env key

unfoldable pub get : List EnvVar → Text → Text
unfolding get_or
get env key = get_or [] env key

-- The extensions of `sshConn`'s permissions, if there are any, and its user.
pub record ServerConn : Type 0 where
  pub user : Text
  pub extensions : Option (List (Text × Text))

-- `sshConn.PublicKey`, for a parser of keys.
unfoldable pub public_key : {K : Type 0} → (Text → Option K) → ServerConn → Option K
public_key parse c = elim c.extensions [
  | none ↦ none
  | some extensions ↦ elim (lookup (codes "pubkey") extensions) [ none ↦ none | some s ↦ parse s ]
]

-- `sshConn.Name`.
unfoldable pub name : ServerConn → Text
name c = c.user

-- `ssh.Request`.
pub record Request : Type 0 where
  pub kind : Text
  pub payload : List ℕ
  pub want_reply : Bool

-- `Terminal`, where `sizes` holds the sizes that it was set to, and `ready` and `done` say that the
-- channels of these names are closed. `replies` holds what `Reply` was called with, and the two
-- numbers count the calls of the `Close` of the channel and of the connection.
pub record Terminal : Type 0 where
  pub env : List EnvVar
  pub term : Text
  pub sizes : List (ℕ × ℕ)
  pub ready : Bool
  pub done : Bool
  pub replies : List Bool
  pub channel_closes : ℕ
  pub conn_closes : ℕ

unfoldable pub new_terminal : Terminal
new_terminal = record {
  env = [];
  term = [];
  sizes = [];
  ready = false;
  done = false;
  replies = [];
  channel_closes = 0;
  conn_closes = 0;
}

-- `Term`.
unfoldable pub term_of : Terminal → Text
unfolding get
term_of t = ite (text_discrete t.term []) (get t.env (codes "TERM")) t.term

-- `Close`, for what `Conn.Close` returns.
unfoldable pub close : {E : Type 0} → Terminal → Option E → Terminal × Option E
close t e = if t.done then (t, none) else (
  record t { done = true; channel_closes = suc t.channel_closes; conn_closes = suc t.conn_closes },
  e,
)

-- `t.SetSize(width, height)`.
unfoldable pub resized : Terminal → ℕ × ℕ → Terminal
resized t size = record t { sizes = t.sizes ++ size ∷ [] }

module _ (set_size : ℕ → ℕ → Bool) (unmarshal_env : List ℕ → Option EnvVar) where
  -- The switch on the type of a request, and whether it is accepted. `set_size` tells whether
  -- setting the size of the terminal succeeds.
  unfoldable pub serve : Terminal → Request → Run (Terminal × Bool)
  unfolding resized
  serve t req =
      ite (text_discrete req.kind (codes "shell"))
        (returns (if t.ready then (t, false) else (record t { ready = true }, true)))
        (ite (text_discrete req.kind (codes "pty-req"))
          (elim (parse_pty_request req.payload) [
            | panics ↦ panics
            | returns none ↦ returns (t, false)
            | returns (some (term, size)) ↦
                returns (record (resized t size) { term = term }, set_size size.0 size.1)
          ])
          (ite (text_discrete req.kind (codes "window-change"))
            (elim (parse_winch_request req.payload) [
              | none ↦ returns (t, false)
              | some size ↦ returns (resized t size, set_size size.0 size.1)
            ])
            (ite (text_discrete req.kind (codes "env"))
              (elim (unmarshal_env req.payload) [
                | none ↦ returns (t, false)
                | some v ↦ returns (record t { env = t.env ++ v ∷ [] }, true)
              ])
              (returns (t, false)))))

  unfoldable pub answer : Request → Run (Terminal × Bool) → Run Terminal
  answer req panics = panics
  answer req (returns (t, ok)) =
      returns (if req.want_reply then record t { replies = t.replies ++ ok ∷ [] } else t)

  -- `listen`, over the requests that come.
  unfoldable pub listen : Terminal → List Request → Run Terminal
  unfolding serve answer
  listen t [] = returns t
  listen t (req ∷ reqs) = elim (answer req (serve t req)) [
    | panics ↦ panics
    | returns t' ↦ listen t' reqs
  ]

-- A tick of the goroutine that keeps the connection alive, and whether its request could be sent.
-- The goroutine is over when the terminal is closed; a tick that it still takes closes nothing again.
unfoldable pub keep_alive : Terminal → Bool → Terminal
unfolding close
keep_alive t sent = if t.done then t else if sent then t else (close {E = Unit {0}} t none).0

-- What the goroutines and the owner of a terminal do with it.
pub data Activity : Type 0 where
  requested : Request → Activity
  ticked : Bool → Activity
  closed : Activity

module _ (set_size : ℕ → ℕ → Bool) (unmarshal_env : List ℕ → Option EnvVar) where
  unfoldable pub act : Terminal → Activity → Run Terminal
  unfolding serve answer keep_alive close
  act t (requested req) = answer set_size unmarshal_env req (serve set_size unmarshal_env t req)
  act t (ticked sent) = returns (keep_alive t sent)
  act t closed = returns (close {E = Unit {0}} t none).0

  -- Activities in any order, which the lock of the terminal makes one of.
  unfoldable pub act_all : Terminal → List Activity → Run Terminal
  unfolding act
  act_all t [] = returns t
  act_all t (a ∷ rest) = elim (act t a) [ panics ↦ panics | returns t' ↦ act_all t' rest ]

-- What `NewTerminal` waits for, whichever comes first, and what it returns.
pub data Signal : Type 0 where
  shell_acquired closed_first timed_out : Signal

pub data SessionError : Type 0 where
  no_session_channel not_session_channel not_accepted terminal_aborted start_timed_out :
      SessionError

-- `ssh.NewChannel`: its type, whether it can be accepted, and the signal that follows.
pub record NewChannel : Type 0 where
  pub channel_type : Text
  pub accepts : Bool
  pub signal : Signal

-- `NewTerminal`, up to the error.
unfoldable pub start_terminal : NewChannel → Option SessionError
start_terminal ch =
    ite (text_discrete ch.channel_type (codes "session"))
      (if not ch.accepts then some not_accepted else elim ch.signal [
        | shell_acquired ↦ none
        | closed_first ↦ some terminal_aborted
        | timed_out ↦ some start_timed_out
      ])
      (some not_session_channel)

-- `NewSession`: the types that were rejected, and the channel that a terminal runs on.
unfoldable pub new_session :
    List Text → List NewChannel → List Text × (Option NewChannel × Option SessionError)
unfolding start_terminal
new_session rejected [] = (rejected, (none, some no_session_channel))
new_session rejected (ch ∷ chs) =
    let later = new_session (rejected ++ ch.channel_type ∷ []) chs in
    ite (text_discrete ch.channel_type (codes "session"))
      (elim (start_terminal ch) [
        | none ↦ (rejected, (some ch, none))
        | some e ↦ (rejected, (none, some e))
      ])
      later
