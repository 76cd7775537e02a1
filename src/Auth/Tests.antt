-- ===== src/Auth/Tests.antt =====
-- A server with one operator and one banned host, and the theorems of this component at it.
use ssh_chat.Prelude.{
  ◌≡◌, ◌≢◌, refl, true, not, ◌&&◌, ◌||◌, if◌then◌else◌, ite, Option, none, some, List, [], ◌∷◌,
  ◌++◌, Text, codes, text_discrete, after, result, ok, err, arith, lookup, assign, to_lower,
}
use ssh_chat.Prelude.Int.{pos}
use ssh_chat.Set
use ssh_chat.Set.{found, time_add}
use ssh_chat.Sanitize.{data_text}
use ssh_chat.Auth.{
  Externals, Auth, not_allowed, banned_error, incorrect_passphrase, new_auth, new_auth_key,
  set_passphrase, accept_passphrase, allow_anonymous, check_bans, check_passphrase, op, ban_addr,
  set_for,
}
use ssh_chat.Auth.Query.{ban_query, has_equals, leading_duration_refused}
use ssh_chat.Auth.Checks.{holds, is_banned, is_operator, check_bans-is_banned}
use ssh_chat.Auth.Handshake.{public_key_callback, keyboard_callback, check_answers, auth_ops}
use ssh_chat.Auth.Handshake.Access.{
  succeeds, answers_accepted, public_key_login, keyboard_login, wrong_passphrase_bans,
}

abbrev take_host : Text → Text
take_host [] = []
take_host (c ∷ s) = ite (text_discrete (c ∷ []) (codes ":")) [] (c ∷ take_host s)

-- Keys are texts, the hash marks its argument, and queries are split at `;`.
abbrev world : Externals
world = record {
  PublicKey = Text;
  marshal = λ k. k;
  sha256 = λ s. b'#' ∷ s;
  base64 = λ s. s;
  split_host = take_host;
  IpAddress = Text;
  parse_ip = λ s. ite (text_discrete s (codes "1.1.1.1")) (some s) none;
  ip_string = λ ip. elim ip [ none ↦ codes "<nil>" | some s ↦ s ];
  tcp_string = λ ip. elim ip [ none ↦ codes ":0" | some s ↦ s ++ codes ":0" ];
  parse_duration = λ s. none;
  read_csv = λ s. some (s, codes "client=foo" ∷ []);
  lower_beyond = λ s. s;
}

abbrev server : Auth world
server =
    set_passphrase world
      (ban_addr world 100 (op world 0 (new_auth world) (some (codes "root")) (pos 0))
        (some (codes "9.9.9.9:1")) (pos 50))
      (codes "secret")

abbrev host : Option Text
host = some (codes "9.9.9.9:4022")

root_is_op : is_operator world 120 server (some (codes "root")) ≡ true
unfolding is_operator set_passphrase ban_addr op new_auth set_for Set.new text_discrete lookup
    assign to_lower Set.value found new_auth_key Set.key Set.is_nil
root_is_op = refl

check_bans-is_banned_example : result (check_bans world 120 server host none (codes "bot")) ≡ (
    if is_banned world 120 server host none (codes "bot") && not (is_operator world 120 server none)
    then some banned_error
    else none)
check_bans-is_banned_example = check_bans-is_banned world 120 server host none (codes "bot")

public_key_login_example :
    result (
      public_key_callback
        (auth_ops world)
        world.marshal
        120
        server
        host
        (codes "eve")
        (codes "bot"))
    ≡ (if is_banned world 120 server host (some (codes "eve")) (data_text (codes "bot") 64)
          && not (is_operator world 120 server (some (codes "eve")))
        then err banned_error
        else if allow_anonymous world server
            || holds 120 server.allowlist (new_auth_key world (some (codes "eve")))
            || is_operator world 120 server (some (codes "eve"))
        then ok (codes "eve")
        else err not_allowed)
public_key_login_example = public_key_login world 120 server host (codes "eve") (codes "bot")

abbrev said : Option (List Text)
said = some (codes "secret" ∷ [])

keyboard_login_example :
    succeeds (
      result
        (keyboard_callback (auth_ops world) world.marshal 120 125 server host (codes "bot") said))
    ≡ (not (
          is_banned world 120 server host none (data_text (codes "bot") 64)
          && not (is_operator world 120 server none))
        && (if accept_passphrase world server
            then answers_accepted world server said
            else allow_anonymous world server))
keyboard_login_example = keyboard_login world 120 125 server host (codes "bot") said

abbrev guarded : Auth world
guarded = record (new_auth world) { passphrase_hash = some (codes "#secret") }

wrong_passphrase_bans_example :
    let r =
      check_answers (auth_ops world) world.marshal 125 guarded host (some (codes "guess" ∷ [])) in
    (result r ≡ some incorrect_passphrase)
    × (result (check_bans world 126 (after r) host none (codes "bot")) ≡ some banned_error)
unfolding check_passphrase text_discrete is_operator new_auth lookup found Set.new
wrong_passphrase_bans_example =
    wrong_passphrase_bans world 125 126 guarded host host (codes "guess") (codes "bot") none
      incorrect_passphrase refl refl (omega arith) refl

leading_duration_refused_example :
    (after (ban_query world 3 server (codes "5s")) ≡ server)
    × (result (ban_query world 3 server (codes "5s")) ≢ none)
unfolding has_equals
leading_duration_refused_example =
    leading_duration_refused world 3 server (codes "5s") (codes "5s") (codes "client=foo") [] refl
      refl
