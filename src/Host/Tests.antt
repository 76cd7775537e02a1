-- ===== src/Host/Tests.antt =====
-- What commands and connections do on a host with two members.
use ssh_chat.Prelude.{
  ◌⊎◌, inl, fields, ℕ, zero, suc, ◌+◌, ◌≡◌, ◌≢◌, refl, Bool, true, false, none, some, List, [], ◌∷◌,
  ◌++◌, length, Text, Option, has_prefix, map, occurs, ◌&&◌, ◌||◌, if◌then◌else◌, codes,
  text_discrete, lookup, assign, to_lower, after, result, err, returns, arith,
}
use ssh_chat.Auth.{new_auth, banned_error, check_bans}
use ssh_chat.Auth.Checks.{is_operator}
use ssh_chat.Set.{is_in, Item, val, itemize, list_prefix}
use ssh_chat.Message.{Message, command_msg, from}
use ssh_chat.User.{User, new_user}
use ssh_chat.Room.{World, Member, new_room, member_by_id, member_of}
use ssh_chat.Room
use ssh_chat.Session.{EnvVar}
use ssh_chat.Commands.{Command, Request}
use ssh_chat.Host.{Host}
use ssh_chat.Host.Registry.{HostAction, kick_action, commands, run_command}
use ssh_chat.Host.Registry.Operators.{asked, run_command-refused}
use mathlib.Core.List.{Perm}
use ssh_chat.Host.Complete.{last_field, auto_complete, names_prefix, users_of}
use ssh_chat.Host.Complete.Recent.{IsRecent, names_prefix-IsRecent}
use ssh_chat.Host.Complete.Position.{auto_complete-fits}
use ssh_chat.Host.Moderation.Banned.{outcome, target, ban_command-banned}
use ssh_chat.Host.Connect.{connect}
use ssh_chat.Host.Connect.Lines.{connect-closed}
use ssh_chat.Host.Example.{outer, outside, env, conn_of, host, ann_op, bob_found}

-- Bob, who is no operator, tries to kick Ann.
abbrev kick_ann : Request
kick_ann = record {
  from = 1;
  body = codes "/kick ann";
  command = codes "/kick";
  args = codes "ann" ∷ [];
}

abbrev kick_command : Command HostAction
kick_command = record {
  prefix = codes "/kick";
  prefix_help = codes "USER";
  help = codes "Kick USER from the server.";
  op = true;
  handler = kick_action;
}

kick_here : lookup kick_ann.command commands ≡ some kick_command
unfolding commands lookup text_discrete assign
kick_here = refl

one_argument : kick_ann.args ≢ []
one_argument = ground arith

bob_no_op : result (Room.is_op env.now host.world kick_ann.from) ≡ false
unfolding Room.is_op to_lower lookup text_discrete ssh_chat.Set.get new_user
bob_no_op = refl

run_command-refused_example :
    (after (run_command outer outside env host kick_ann) ≡ asked outer outside env host kick_ann)
    × (result (run_command outer outside env host kick_ann) ≢ none)
run_command-refused_example =
    run_command-refused outer outside env host kick_ann kick_command kick_here refl one_argument
      bob_no_op

-- The host with Ann, an operator, muted.
abbrev muted : Host outer
muted = record host {
  world = record host.world { member = λ p. record (host.world.member p) { is_muted = true } };
}

abbrev ann_kicks : Message
ann_kicks = command_msg 0 (codes "/kick bob") 5 (codes "/kick") (codes "bob" ∷ [])

word : codes "bo" ≢ []
word = ground arith

last_word : last_field (fields (codes "hi " ++ codes "bo")) ≡ codes "bo"
unfolding fields last_field ssh_chat.Prelude.space_size
last_word = refl

auto_complete-fits_example :
    (result (
        auto_complete outer 7 host 0
          (codes "hi " ++ (codes "bo" ++ codes "!"))
          (length (codes "hi ") + length (codes "bo"))
          9)
      ≡ none)
    ⊎ ((w : Text) × (result (
            auto_complete outer 7 host 0
              (codes "hi " ++ (codes "bo" ++ codes "!"))
              (length (codes "hi ") + length (codes "bo"))
              9)
          ≡ some (
            codes "hi " ++ ((w ++ codes " ") ++ codes "!"),
            length (codes "hi ") + length (w ++ codes " "),
          )))
auto_complete-fits_example =
    auto_complete-fits outer 7 host 0 (codes "hi ") (codes "bo") (codes "!") 9 word last_word

-- Ann bans Bob for ever.
plain_key : is_operator outer 9 host.auth (some (codes "other")) ≡ false
unfolding is_operator new_auth lookup ssh_chat.Set.found ssh_chat.Set.new
plain_key = refl

ban_command-banned_example :
    (result (outcome outer outside env host 0 (codes "/ban bob") (codes "/ban") (codes "bob") [] 1)
      ≡ none)
    × (result (
          check_bans outer 9
            (after (
              outcome outer outside env host 0
                (codes "/ban bob")
                (codes "/ban")
                (codes "bob")
                []
                1)).auth
            (some (codes "key"))
            (some (codes "other"))
            (codes "SSH"))
        ≡ some banned_error)
    × (((after (
            outcome outer outside env host 0
              (codes "/ban bob")
              (codes "/ban")
              (codes "bob")
              []
              1)).world.users
          (target outer outside env host 0
            (codes "/ban bob")
            (codes "/ban")
            (codes "bob")
            []
            1)).done
        ≡ true)
ban_command-banned_example =
    ban_command-banned outer outside env host 0 (codes "/ban bob") (codes "/ban") (codes "bob") [] 1
      9 (some (codes "key")) (some (codes "other")) (codes "SSH") ann_op bob_found refl (inl refl)
      plain_key

-- The third line in a row is one too many.
abbrev count : ℕ → ℕ → ℕ × Bool
count now zero = (0, true)
count now (suc n) = (n, false)

abbrev theme_var : EnvVar
theme_var = record { key = codes "SSHCHAT_THEME"; value = codes "mono" }

abbrev typed : List (ℕ × Text)
typed = (8, codes "hi") ∷ (9, codes "/nick eve") ∷ (10, codes "there") ∷ []

connect-closed_example :
    (h' : Host outer) × (connect outer outside env count 7 host 2 5
        (conn_of (codes "cat"))
        (codes "xterm")
        (theme_var ∷ [])
        typed
        11
      ≡ returns h')
    × ((h'.world.users 5).done ≡ true)
connect-closed_example =
    connect-closed outer outside env count 7 host 2 5 (conn_of (codes "cat")) (codes "xterm")
      (theme_var ∷ []) typed 11

names_prefix-IsRecent_example :
    (us : List User) × (result (names_prefix outer 7 host (codes "b"))
      ≡ map (λ (u : User). u.id) us)
    × Perm us (users_of host.world 7 (result (list_prefix 7 host.world.room.members (codes "b"))))
    × IsRecent us
names_prefix-IsRecent_example = names_prefix-IsRecent outer 7 host (codes "b")
