-- ===== src/User.antt =====
-- chat/message/user.go and identity.go: a user, its settings and its message channel, and the
-- prompt and the callback `OnChange` of host.go. The printing of messages is modelled in Render.
pub mod Channel
mod Tests
use ssh_chat.Prelude.{
  ℕ, Bool, true, false, not, if◌then◌else◌, ite, Option, none, some, List, [], ◌∷◌, ◌++◌, Text,
  codes, text_discrete,
}
use ssh_chat.Prelude.Int.{ℤ}
use ssh_chat.Set.{Set}
use ssh_chat.Set
use ssh_chat.Message.{Message}
use ssh_chat.Theme.{Theme, color_name}

-- `UserConfig`. The highlighting expression is given by the name that it was made from, the time
-- format by its text, and the time zone by its offset in seconds.
pub record UserConfig : Type 0 where
  pub highlight : Option Text
  pub bell : Bool
  pub quiet : Bool
  pub echo : Bool
  pub timeformat : Option Text
  pub timezone : Option ℤ
  pub theme : Option Theme

-- `User` with the `Identity` that it embeds. The ignored names are kept with a pointer to the
-- member, the focused ones with the value `ZeroValue`. `created` is the identity's. `hooked` says
-- that `OnChange` is the callback of `Host.Connect`, and `prompt` is what the prompt of the user's
-- terminal was set to. `msg` is the buffered channel, oldest message first, and
-- `done` says that the channel of that name is closed. A time 0 is Go's zero time.
pub record User : Type 0 where
  pub id : Text
  pub symbol : Text
  pub created : ℕ
  pub hooked : Bool
  pub prompt : Text
  pub ignored : Set ℕ
  pub focused : Set ℕ
  pub color_idx : ℕ
  pub joined : ℕ
  pub msg : List Message
  pub done : Bool
  pub config : UserConfig
  pub reply_to : Option ℕ
  pub last_msg : ℕ
  pub away_reason : Text
  pub away_since : ℕ

abbrev pub default_user_config : UserConfig
default_user_config = record {
  highlight = none;
  bell = true;
  quiet = false;
  echo = true;
  timeformat = none;
  timezone = none;
  theme = none;
}

-- `NewUser` over an identity with the name `id`, made at the same time. The random index of a color
-- is an argument.
unfoldable pub new_user : (Text → Text) → ℕ → ℕ → Text → User
new_user beyond now color_idx id = record {
  id = id;
  symbol = [];
  created = now;
  hooked = false;
  prompt = [];
  ignored = Set.new beyond;
  focused = Set.new beyond;
  color_idx = color_idx;
  joined = now;
  msg = [];
  done = false;
  config = default_user_config;
  reply_to = none;
  last_msg = 0;
  away_reason = [];
  away_since = 0;
}

-- `Identity.Name`.
unfoldable pub name : User → Text
name u = ite (text_discrete u.symbol []) u.id (u.symbol ++ codes " " ++ u.id)

-- The name in the colors of the theme. A theme with no color for it makes Go panic, so the empty
-- text that stands for it is never printed.
abbrev pub colored : User → Theme → Text
colored u theme = elim (color_name theme (name u) u.id u.color_idx) [ none ↦ [] | some s ↦ s ]

-- `GetPrompt`.
unfoldable pub get_prompt : User → Text
unfolding name
get_prompt u =
    let shown : Text = elim u.config.theme [ none ↦ name u | some theme ↦ colored u theme ] in
    codes "[" ++ (shown ++ codes "] ")

-- `SetHighlight`. The expression that it makes of a name compiles, since the name is a word.
unfoldable pub set_highlight : User → Text → User
set_highlight u s = record u { config = record u.config { highlight = some s } }

-- `OnChange`, if it is set: that of `Host.Connect` sets the prompt and the expression.
unfoldable pub changed : User → User
unfolding set_highlight get_prompt
changed u = if u.hooked then set_highlight (record u { prompt = get_prompt u }) u.id else u

unfoldable pub set_away : ℕ → User → Text → User
set_away now u m = record u { away_reason = m; away_since = ite (text_discrete m []) 0 now }

unfoldable pub get_away : User → Bool × ℕ × Text
get_away u = (ite (text_discrete u.away_reason []) false true, u.away_since, u.away_reason)

unfoldable pub set_config : User → UserConfig → User
unfolding changed
set_config u cfg = changed (record u { config = cfg })

-- `SetID`, with the random index of the new color.
unfoldable pub set_id : ℕ → User → Text → User
unfolding changed
set_id color_idx u id = changed (record u { id = id; color_idx = color_idx })

unfoldable pub set_reply_to : User → Option ℕ → User
set_reply_to u v = record u { reply_to = v }

-- `Close`: done once, whoever calls it.
unfoldable pub close : User → User
close u = record u { done = true }
