-- ===== src/Listener.antt =====
-- sshd/net.go, and the wrapping of a connection in sshd/ratelimit.go: the listener, whose loop
-- accepts connections while goroutines upgrade those accepted before to sessions, as steps in any
-- order. Package ssh is given by the outcome of its handshake. Logging is left out.
pub mod Sessions
pub mod Served
mod Tests
use ssh_chat.Prelude.{
  ℕ, suc, ◌+◌, ◌*◌, ◌≡◌, Bool, true, false, if◌then◌else◌, Option, none, some, List, [], ◌∷◌, ◌++◌,
  Result, ok, err, get_elem?,
}
use ssh_chat.Prelude
use ssh_chat.Session.{ServerConn, NewChannel, SessionError, no_session_channel, new_session}

-- `net.Conn` as the listener leaves it: whether its reads are limited, its deadline for reading
-- (none is the zero time), and how often the listener closed it.
pub record Link : Type 0 where
  pub limited : Bool
  pub deadline : Option ℕ
  pub closes : ℕ

unfoldable pub accepted_link : Link
accepted_link = record { limited = false; deadline = none; closes = 0 }

-- `ReadLimitConn`.
unfoldable pub read_limit_conn : Link → Link
read_limit_conn c = record c { limited = true }

-- `SetReadDeadline`.
unfoldable pub set_read_deadline : Link → Option ℕ → Link
set_read_deadline c t = record c { deadline = t }

-- What `ssh.NewServerConn` returns: an error, or a connection and the channels that its client
-- opens.
abbrev pub Handshake : Type 0
Handshake = Option (ServerConn × List NewChannel)

pub data ConnError : Type 0 where
  handshake_failed : ConnError
  session_failed : SessionError → ConnError

-- The start of `handleConn`, with and without a `RateLimit` of the listener.
unfoldable pub begin : Bool → ℕ → Link → Link
unfolding read_limit_conn set_read_deadline
begin rate_limit now c =
    let c' = if rate_limit then read_limit_conn c else c in
    set_read_deadline c' (some (now + 20 * 1000000000))

-- What `NewSession` returns; it never returns neither a terminal nor an error.
unfoldable pub opened :
    ServerConn
    → Option NewChannel × Option SessionError
    → Result ConnError (ServerConn × NewChannel)
opened conn (channel, some e) = err (session_failed e)
opened conn (some channel, none) = ok (conn, channel)
opened conn (none, none) = err (session_failed no_session_channel)

-- What `handleConn` returns: the connection and the channel of the terminal, or an error.
unfoldable pub upgrade : Handshake → Result ConnError (ServerConn × NewChannel)
unfolding new_session opened
upgrade none = err handshake_failed
upgrade (some (conn, channels)) = opened conn (new_session [] channels).1

-- A goroutine of `Serve` for a connection: not begun, in the handshake, handed over to
-- `HandlerFunc`, or dropped.
pub data Phase : Type 0 where
  accepted handshaking : Phase
  handed : ServerConn → NewChannel → Phase
  dropped : ConnError → Phase

-- The end of `handleConn`, whose deferred call takes the deadline away, and the rest of the
-- goroutine: the connection is closed on an error.
unfoldable pub finish : Link → Handshake → Link × Phase
unfolding upgrade set_read_deadline
finish c handshake =
    let c' = set_read_deadline c none in
    elim (upgrade handshake) [
      | err e ↦ (record c' { closes = suc c'.closes }, dropped e)
      | ok r ↦ (c', handed r.0 r.1)
    ]

-- `SSHListener`: whether the socket is open, and the connections that it accepted, in order.
pub record Listener : Type 0 where
  pub is_open : Bool
  pub conns : List (Link × Phase)

-- `ListenSSH`, if the socket can be opened.
unfoldable pub listen_ssh : Listener
listen_ssh = record { is_open = true; conns = [] }

unfoldable pub accept_conn : Listener → Listener
unfolding accepted_link
accept_conn l = record l { conns = l.conns ++ (accepted_link, accepted) ∷ [] }

-- The deferred `Close`, after an error of `Accept`.
unfoldable pub close_socket : Listener → Listener
close_socket l = record l { is_open = false }

unfoldable pub set_conn : Listener → ℕ → Link × Phase → Listener
set_conn l i c = record l { conns = Prelude.set l.conns i c }

-- A step of the loop of `Serve` or of one of the goroutines.
pub data Step (rate_limit : Bool) : Listener → Listener → Type 0 where
  accepts : (l : Listener) → l.is_open ≡ true → Step rate_limit l (accept_conn l)
  fails : (l : Listener) → l.is_open ≡ true → Step rate_limit l (close_socket l)
  begins :
      (l : Listener) (i now : ℕ) (c : Link)
      → get_elem? l.conns i ≡ some (c, accepted)
      → Step rate_limit l (set_conn l i (begin rate_limit now c, handshaking))
  finishes :
      (l : Listener) (i : ℕ) (c : Link) (handshake : Handshake)
      → get_elem? l.conns i ≡ some (c, handshaking)
      → Step rate_limit l (set_conn l i (finish c handshake))

pub data Steps (rate_limit : Bool) : Listener → Listener → Type 0 where
  no_step : (l : Listener) → Steps rate_limit l l
  step : (l m n : Listener) → Step rate_limit l m → Steps rate_limit m n → Steps rate_limit l n
