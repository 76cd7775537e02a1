-- ===== src/Commands/Settings.antt =====
-- chat/command.go: the handlers of /theme, /quiet and /timestamp, which change a user's settings.
use ssh_chat.Prelude.{
  ℕ, ◌/◌, Bool, true, false, not, if◌then◌else◌, ite, Option, none, some, List, [], ◌∷◌, ◌++◌, map,
  Text, codes, text_discrete, join_with, Result, ok, err,
}
use ssh_chat.Prelude.Int.{ℤ, pos, negsuc}
use ssh_chat.User.{User, UserConfig}
use ssh_chat.User
use ssh_chat.Room.{World, set_user}
use ssh_chat.Theme.{Theme, themes, newline}
use ssh_chat.Commands.{Ambient, Outcome, Handler, fail, reply}

-- `user.SetConfig(cfg)`.
unfoldable pub configure : World → ℕ → UserConfig → World
unfolding set_user
configure w u cfg = set_user w u (User.set_config (w.users u) cfg)

unfoldable pub find_theme : Text → List Theme → Option Theme
find_theme id [] = none
find_theme id (t ∷ ts) = ite (text_discrete t.id id) (some t) (find_theme id ts)

abbrev theme_ids : List Text
theme_ids = map (λ (t : Theme). t.id) themes

-- /theme.
unfoldable pub set_theme : Handler
unfolding configure find_theme reply
set_theme env w req =
    let cfg = (w.users req.from).config in
    elim req.args [
      | [] ↦
          let current : Text = elim cfg.theme [ none ↦ codes "plain" | some t ↦ t.id ] in
          reply env w req.from (
            codes "Current theme: "
            ++ (current
                ++ (newline
                    ++ (codes "   Themes available: " ++ join_with theme_ids (codes ", ")))))
      | id ∷ args ↦ elim (find_theme id themes) [
        | none ↦ fail w (codes "theme not found")
        | some t ↦
            reply env (configure w req.from (record cfg { theme = some t })) req.from
              (codes "Set theme: " ++ id)
      ]
    ]

unfoldable pub quiet : Handler
unfolding configure reply
quiet env w req =
    let cfg = (w.users req.from).config in
    let w' = configure w req.from (record cfg { quiet = not cfg.quiet }) in
    reply env w' req.from (
      if not cfg.quiet then codes "Quiet mode is toggled ON" else codes "Quiet mode is toggled OFF")

abbrev pub timeformat_datetime : Text
timeformat_datetime = codes "2006-01-02 15:04:05"

abbrev pub timeformat_time : Text
timeformat_time = codes "15:04"

-- The switch on the mode: the time format that it gives for the one so far.
unfoldable pub timeformat_for : Text → Option Text → Option (Option Text)
timeformat_for mode format = ite (text_discrete mode (codes "time")) (some (some timeformat_time)) (
    ite (text_discrete mode (codes "datetime")) (some (some timeformat_datetime)) (
      ite (text_discrete mode [])
        (some (elim format [ none ↦ some timeformat_time | some f ↦ none ]))
        (ite (text_discrete mode (codes "off")) (some none) none)))

-- `int(offset.Seconds())`: whole seconds, rounded towards zero.
unfoldable pub seconds : ℤ → ℤ
seconds (pos n) = pos (n / 1000000000)
seconds (negsuc n) =
    ssh_chat.Prelude.Int.sub_ℕ 0 (ssh_chat.Prelude.Int.neg_part (negsuc n) / 1000000000)

-- The rest of /timestamp, with the time zone read.
unfoldable pub set_timestamp : Ambient → World → ℕ → Text → Option ℤ → Outcome
unfolding configure timeformat_for reply
set_timestamp env w u mode zone =
    let cfg = (w.users u).config in
    elim (timeformat_for mode cfg.timeformat) [
      | none ↦ fail w (codes "timestamp value must be one of: time, datetime, off")
      | some format ↦
          let text : Text = elim format [
            | none ↦ codes "Timestamp is toggled OFF"
            | some f ↦ elim zone [
              | none ↦ codes "Timestamp is toggled ON, timezone is UTC"
              | some z ↦ codes "Timestamp is toggled ON, timezone is " ++ env.zone_name z env.now
            ]
          ] in
          reply env (configure w u (record cfg { timeformat = format; timezone = zone })) u text
    ]

unfoldable pub timestamp_args : Ambient → World → ℕ → List Text → Outcome
unfolding set_timestamp seconds
timestamp_args env w u [] = set_timestamp env w u [] (w.users u).config.timezone
timestamp_args env w u (mode ∷ []) = set_timestamp env w u mode (w.users u).config.timezone
timestamp_args env w u (mode ∷ offset ∷ args) = elim (env.parse_duration offset) [
  | err text ↦ fail w text
  | ok d ↦ set_timestamp env w u mode (some (seconds d))
]

unfoldable pub timestamp : Handler
unfolding timestamp_args
timestamp env w req = timestamp_args env w req.from req.args
