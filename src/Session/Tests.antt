-- ===== src/Session/Tests.antt =====
-- A session whose connection is lost after its shell was asked for, and that is closed again.
use ssh_chat.Prelude.{◌≡◌, refl, true, false, none, List, [], ◌∷◌, codes, text_discrete, returns}
use ssh_chat.Session.{
  Request, Terminal, new_terminal, close, serve, answer, keep_alive, Activity, requested, ticked,
  closed, act, act_all,
}
use ssh_chat.Session.Closing.{IsOnce, act_all-IsOnce}

abbrev shell : Request
shell = record { kind = codes "shell"; payload = []; want_reply = true }

abbrev activities : List Activity
activities = requested shell ∷ ticked true ∷ ticked false ∷ closed ∷ []

abbrev lost : Terminal
lost = record new_terminal {
  ready = true;
  done = true;
  replies = true ∷ [];
  channel_closes = 1;
  conn_closes = 1;
}

loses : act_all (λ w h. true) (λ payload. none) new_terminal activities ≡ returns lost
unfolding act_all act serve answer keep_alive close new_terminal text_discrete
loses = refl

act_all-IsOnce_example : IsOnce lost
act_all-IsOnce_example = act_all-IsOnce (λ w h. true) (λ payload. none) lost activities loses
