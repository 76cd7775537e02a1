-- ===== src/Host/Connect/Lines.antt =====
-- Serving a connection comes to an end with the user closed, whatever the lines and the environment.
use ssh_chat.Prelude.{
  ℕ, ◌≡◌, refl, inl, inr, Bool-cases, Bool, true, false, if◌then◌else◌, ite, ltb, some,
  Option-cases, List, [], ◌∷◌, length, Text, codes, text_discrete, has_prefix, Run, panics, returns,
  result, arith,
}
use ssh_chat.Auth.{Externals}
use ssh_chat.Message.{command_msg, parse_input}
use ssh_chat.Message.Input.{parse_command_slash, parse_input_lem}
use ssh_chat.Room.{set_user}
use ssh_chat.Session.{EnvVar}
use ssh_chat.User
use ssh_chat.Commands.{Ambient}
use ssh_chat.Host.{Connection, Outside, Host}
use ssh_chat.Host.Registry.{handle_msg}
use ssh_chat.Host.Connect.{
  max_input_length, env_command, run_text, load_env, take_line, take_lines, finish, connect,
  api_mode, settle_in, arrived, leave_room,
}

-- It returns.
abbrev pub Returns : {A : Type 0} → Run A → Type 0
Returns {A} r = (a : A) × (r ≡ returns a)

parse_input-Returns : (u : ℕ) (s : Text) (t : ℕ) → Returns (parse_input u s t)
parse_input-Returns u s t = elim (Bool-cases (has_prefix s (codes "/"))) [
  | inl e ↦ let (c, args, p) = (parse_input_lem u s t).0 e in (_, p)
  | inr e ↦ (_, (parse_input_lem u s t).1 e)
]

-- A setting in the environment becomes a text that begins with a slash.
env_command-slash :
    (e : EnvVar) (text : Text) → env_command e ≡ some text → has_prefix text (codes "/") ≡ true
unfolding env_command has_prefix
env_command-slash e text h = ground (arith, h)

has_prefix-slash : (text : Text) → has_prefix text (codes "/") ≡ true → (s : Text) × (text ≡ 47 ∷ s)
unfolding has_prefix
has_prefix-slash [] h = ground (arith, h)
has_prefix-slash (c ∷ s) h = (s, ground (arith, h))

if-Returns :
    {A : Type 0} (b : Bool) (r q : Run A) → Returns r → Returns q → Returns (if b then r else q)
if-Returns true r q h i = h
if-Returns false r q h i = i

ite-Returns : {A P : Type 0} (d : Dec P) (r q : Run A) → Returns r → Returns q → Returns (ite d r q)
ite-Returns (yes p) r q h i = h
ite-Returns (no p) r q h i = i

bind-Returns :
    {A B : Type 0} (r : Run A) (f : A → B)
    → Returns r
    → Returns {A = B} (elim r [ panics ↦ panics | returns a ↦ returns (f a) ])
bind-Returns r f (a, p) = (f a, rw p refl)

module _ (x : Externals) (o : Outside x) (env : Ambient) where
  run_text-Returns :
      (now : ℕ) (h : Host x) (u : ℕ) (e : EnvVar) (text : Text)
      → env_command e ≡ some text
      → Returns (run_text x o env now h u text)
  unfolding run_text
  run_text-Returns now h u e text c =
      let (s, slash) = has_prefix-slash text (env_command-slash e text c) in
      let (name, args, p) = parse_command_slash u s now in
      let m = command_msg u (47 ∷ s) now (47 ∷ name) args in
      (handle_msg x o env now h m, rw (slash, p, run_text) refl)

  load_env-Returns :
      (now : ℕ) (h : Host x) (u : ℕ) (vars : List EnvVar) → Returns (load_env x o env now h u vars)
  unfolding load_env
  load_env-Returns now h u [] = (h, refl)
  load_env-Returns now h u (e ∷ vars) = elim (Option-cases (env_command e)) [
    | inl c ↦ rw (c, load_env) (load_env-Returns now h u vars)
    | inr (text, c) ↦
        let (h', r) = run_text-Returns now h u e text c in
        rw (c, r, load_env) (load_env-Returns now h' u vars)
  ]

  module _ {L : Type 0} (count : ℕ → L → L × Bool) where
    take_line-Returns :
        (h : Host x) (l : L) (u : ℕ) (api : Bool) (line : ℕ × Text)
        → Returns (take_line x o env count h l u api line)
    unfolding take_line
    take_line-Returns h l u api (now, line) =
        if-Returns (result (count now l)) _ _ (_, refl)
          (if-Returns (ltb max_input_length (length line)) _ _ (_, refl)
            (ite-Returns (text_discrete line []) _ _ (_, refl)
              (bind-Returns (parse_input u line now) _ (parse_input-Returns u line now))))

    take_lines-Returns :
        (h : Host x) (l : L) (u : ℕ) (api : Bool) (lines : List (ℕ × Text))
        → Returns (take_lines x o env count h l u api lines)
    unfolding take_lines
    take_lines-Returns h l u api [] = (h, refl)
    take_lines-Returns h l u api (line ∷ lines) =
        let ((h', l'), p) = take_line-Returns h l u api line in
        rw (p, take_lines) (take_lines-Returns h' l' u api lines)

    finish-done : (h : Host x) (u : ℕ) → ((finish x o env count h u).world.users u).done ≡ true
    unfolding finish set_user User.close
    finish-done h u = ground arith

    leave_room-done :
        (h : Host x) (u last : ℕ) → ((leave_room x o env count h u last).world.users u).done ≡ true
    unfolding leave_room finish set_user User.close
    leave_room-done h u last = ground arith

    -- Whatever its lines and its environment, serving a connection returns: no text that is parsed
    -- for a command panics. The user is closed in the end, whether it could join the room or not.
    pub connect-closed :
        (now : ℕ) (h : Host x) (l : L) (u : ℕ) (conn : Connection x) (term : Text)
        (vars : List EnvVar) (lines : List (ℕ × Text)) (last : ℕ)
        → (h' : Host x) × (connect x o env count now h l u conn term vars lines last ≡ returns h')
          × ((h'.world.users u).done ≡ true)
    unfolding connect
    connect-closed now h l u conn term vars lines last =
        let api = api_mode x o env term in
        let (h1, joined) = arrived x o env now h u conn term in
        elim (Option-cases joined) [
          | inl e ↦ (finish x o env count h1 u, rw (e, connect) refl, finish-done h1 u)
          | inr (p, e) ↦
              let (h2, r) = load_env-Returns now h1 u vars in
              let (h3, q) =
                take_lines-Returns (settle_in x o env now h2 u p conn api) l u api lines in
              (
                leave_room x o env count h3 u last,
                rw (e, connect) (rw (r, connect) (rw (q, connect) refl)),
                leave_room-done h3 u last,
              )
        ]
