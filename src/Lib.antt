-- ===== src/Lib.antt =====
-- ssh-chat is a chat server over SSH. This library models the parts of it that decide what happens:
-- who may connect, what is kept and for how long, who hears a message and what of it is shown, what
-- the commands of users and operators do, and what a terminal does with a key. Each file opens with
-- the Go file that it is about, by its path from the repository's root.
--
-- The parts, and how they interact:
-- * Set (set/set.go, set/item.go): the set of items under normalized keys that the room's members, a
--   user's ignored and focused names and all lists of auth.go are kept in. Set.antt has the state, a
--   Go map as an association list, and a function for each method; the clock's reading is an
--   argument. Set/Expiry, Set/Keys and Set/Iterate prove what readers see, that keys stay unique,
--   and what is listed.
-- * History (chat/message/history.go): the ring of a room's last messages, as a refinement of the
--   list of all messages.
-- * RateLimit (sshd/ratelimit.go): the limit on what a connection may send.
-- * Sanitize (internal/sanitize/sanitize.go): the cleaning of names and client data, over bytes.
-- * Auth (auth.go) with Auth/Query (its BanQuery), and Auth/Handshake (sshd/auth.go): the ban lists,
--   the allowlist, the operators and the passphrase, and the two callbacks of the SSH handshake over
--   the interface Auth of sshd, with the implementation of auth.go put in. Checks and Access prove
--   who is refused and who gets in.
-- * Message (chat/message/message.go): the kinds of messages, and the parsing of what a user enters.
-- * Theme (chat/message/theme.go): styles, palettes and themes. Render (message.go and user.go of
--   chat/message): the text that is printed of a message for a user.
-- * User (chat/message/user.go, identity.go): a user's state and settings. User/Channel has its
--   message channel: sending, consuming and closing as steps in any order.
-- * Room (chat/room.go): the members, who hears which message, joining, leaving and renaming.
--   Room/Delivery and Room/Broadcast prove who is sent what by HandleMsg, Room/Membership who is in
--   the room afterwards. The room calls Set for its members and the ignore lists, and History for the
--   messages that a joining user is sent. Sending to a closed room, which panics in Go, is not modelled.
--   Users and members are pointers into stores, since ignore
--   lists, rooms and connections share them.
-- * Commands (chat/command.go, chat/help.go): the registry of commands and its help. The handlers are
--   in Commands/Talk, Commands/Settings and Commands/Members, and Commands/Builtin registers them. A
--   handler is a function of the room's world and the request; a command names its handler by a value
--   of a data type, so that a registry can be compared and extended. Commands/Registry,
--   Commands/Effects, Commands/Ignoring and Commands/Focusing prove what they do, the last two up to
--   what the user is sent and shown afterwards.
-- * Host (host.go, identity.go): the host, which holds a room, the lists of Auth and the
--   connections of the users. Host/Private, Host/Moderation, Host/Rename and Host/Allowlist have
--   the handlers of its commands, Host/Whois their texts on users, Host/Registry the registry and
--   what is done with a message, Host/Complete the completion of a line (Host/Complete/Recent has
--   the order of names), and Host/Connect the session of a client from its arrival to its end. A
--   command of the host runs on all of the host, where the room sees its own part:
--   Host/Registry/Composed proves that the two views agree, and what comes of a message of a muted
--   member, Host/Registry/Operators that the commands for operators are for them, and Host/Moderation/Banned and Host/Allowlist/Effects what
--   a ban and an entry of the allowlist do at the next handshake. Host/Allowlist/Reverified proves
--   whom a reverification closes, by way of Round (one member) and Underway (the host in between).
-- * Session (sshd/terminal.go): the requests on a channel, the environment that they set, and the
--   goroutine that keeps the connection alive. Session/Closing proves how often the terminal is closed,
--   Session/Requests what the requests amount to. Pty (sshd/pty.go): the payloads of two of these
--   requests.
-- * Listener (sshd/net.go): the loop that accepts connections and the goroutines that upgrade them to
--   sessions, as a relation of steps in any order. Listener/Served proves what
--   becomes of a connection, over the sessions of Session.
-- * Program (cmd/ssh-chat/cmd.go, cmd/ssh-chat/key.go): main, from the options of the command line to
--   the host that is served, in a result type whose errors are the codes that it exits with.
--   Program/Loader reads files of public keys, Program/Identity the private keys, Program/Motd has the
--   line ends of the message of the day. Program/Lines proves which keys a file gives, and
--   Program/Access who gets in to the server that main makes, by way of Program/Listed (what a set
--   holds after a list of keys), Program/Loading and Program/Started.
-- * Keys (sshd/terminal/terminal.go): the parser of the bytes that a terminal sends.
-- * Terminal (sshd/terminal/terminal.go): the line editor. Terminal.antt draws, Terminal/Editor edits
--   and answers to keys, Terminal/Bounds, Terminal/Cursor and Terminal/Keystrokes prove where the
--   cursor stands, and Terminal/Entered what the ring of entered lines holds. Terminal/Screen writes
--   around the line and changes sizes, and Terminal/Reading is the loop of readLine.
-- * Prelude (Prelude.antt and its modules): the operators, Boolean tests, association lists,
--   integers, bytes, decimal numerals and Go's functions on strings that the parts share.
--
-- Texts are lists of bytes. Times are natural numbers of nanoseconds and durations are integers;
-- neither is bounded, where Go has 64 bits. A method that runs under a lock is one step. What comes
-- from elsewhere (SSH keys, SHA-256, base 64, the parsers of packages net, time and csv, Unicode case
-- tables) is a parameter.
--
-- The commands of a room are a parameter of the room, which Commands and Host fill. The decoding of
-- UTF-8 is a parameter of the keys, and the width of runes and the completion of a line are parameters
-- of the line editor. Regular expressions, the printing of times, the clock and random numbers are
-- parameters of the commands and of what is printed, and so are the limiter of package rateio and the
-- parser of keys for the host.
--
-- Loops are structural recursion, but for two. The fuel of the loop of writeLine is the length of what
-- is written: each round writes at least one rune while the cursor is on the screen
-- (Terminal/Bounds). The fuel of the loop of readLine over the keys is one more than the bytes there
-- are: each key takes at least one (Terminal/Reading/Enough).
--
-- Not modelled: the network and the SSH transport, the parser of flags, the profiling server and the
-- signal handler of main, logging, the client for tests (sshd/client.go), the platform files of the
-- terminal, and humantime, which rounds floating-point numbers. The goroutines of a session, one that
-- keeps the connection alive and one that shows the messages of a user, are left out of Host/Connect;
-- the former is modelled in Session, the latter in User/Channel.
pub mod Prelude
pub mod Auth
pub mod Commands
pub mod History
pub mod Host
pub mod Keys
pub mod Listener
pub mod Message
pub mod Program
pub mod Pty
pub mod RateLimit
pub mod Render
pub mod Room
pub mod Sanitize
pub mod Session
pub mod Set
pub mod Terminal
pub mod Theme
pub mod User
