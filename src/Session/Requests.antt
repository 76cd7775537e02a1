-- ===== src/Session/Requests.antt =====
-- What the requests of a session amount to.
use ssh_chat.Prelude.{
  ℕ, ◌≡◌, ◌≢◌, refl, ap, ◌∙◌, ◌⊎◌, inl, inr, Bool, true, false, ◌||◌, ite, if_pos, if_neg, Option,
  none, some, Option-cases, List, [], ◌∷◌, ◌++◌, Text, codes, text_discrete, Run, panics, returns,
  arith,
}
use mathlib.Core.List.{append_assoc, append-nil}
use ssh_chat.Session.{
  EnvVar, get, get_or, Request, Terminal, resized, serve, answer, listen, new_session, NewChannel,
  SessionError, start_terminal,
}

get_or-append :
    (found : Text) (env : List EnvVar) (v : EnvVar) (key : Text)
    → get_or found (env ++ v ∷ []) key
      ≡ ite (text_discrete v.key key) v.value (get_or found env key)
unfolding get_or
get_or-append found [] v key = refl
get_or-append found (u ∷ env) v key =
    get_or-append (ite (text_discrete u.key key) u.value found) env v key

-- A variable that is set last is the one that is read, and every other one is read as before.
pub get-append :
    (env : List EnvVar) (v : EnvVar) (key : Text)
    → get (env ++ v ∷ []) key ≡ ite (text_discrete v.key key) v.value (get env key)
unfolding get
get-append env v key = get_or-append [] env v key

pub Run-cases : {A : Type 0} (r : Run A) → (r ≡ panics) ⊎ ((a : A) × (r ≡ returns a))
Run-cases panics = inl refl
Run-cases (returns a) = inr (a, refl)

-- A request for a shell.
abbrev is_shell : Request → Bool
is_shell req = ite (text_discrete req.kind (codes "shell")) true false

unfoldable pub asks_shell : List Request → Bool
asks_shell [] = false
asks_shell (req ∷ reqs) = is_shell req || asks_shell reqs

module _ (set_size : ℕ → ℕ → Bool) (unmarshal_env : List ℕ → Option EnvVar) where
  serve-ready :
      (t t' : Terminal) (ok : Bool) (req : Request)
      → serve set_size unmarshal_env t req ≡ returns (t', ok)
      → t'.ready ≡ (t.ready || is_shell req)
  unfolding serve resized
  serve-ready t t' ok req h = ground (arith, h)

  answer-ready :
      (t t' : Terminal) (req : Request) (r : Run (Terminal × Bool))
      → serve set_size unmarshal_env t req ≡ r
      → answer set_size unmarshal_env req r ≡ returns t'
      → t'.ready ≡ (t.ready || is_shell req)
  unfolding answer
  answer-ready t t' req panics e h = ground (arith, h)
  answer-ready t t' req (returns (t1, ok)) e h = ground (arith, h, serve-ready t t1 ok req e)

  -- `listen` makes the session ready just if it was, or a shell is asked for.
  pub listen-ready :
      (t t' : Terminal) (reqs : List Request)
      → listen set_size unmarshal_env t reqs ≡ returns t'
      → t'.ready ≡ (t.ready || asks_shell reqs)
  unfolding listen asks_shell
  listen-ready t t' [] h = ground (arith, h)
  listen-ready t t' (req ∷ reqs) h =
      elim (Run-cases (answer set_size unmarshal_env req (serve set_size unmarshal_env t req))) [
        | inl e ↦ ground (arith, h, e)
        | inr (t1, e) ↦
            let first = answer-ready t t1 req (serve set_size unmarshal_env t req) refl e in
            let rest = listen-ready t1 t' reqs (ground (arith, h, e)) in ground (arith, first, rest)
      ]

-- No channel of the list is a session.
abbrev pub NoSession : List NewChannel → Type 0
NoSession [] = Unit {0}
NoSession (ch ∷ chs) = (ch.channel_type ≢ codes "session") × NoSession chs

-- What a session that is started, or fails to, gives.
abbrev pub outcome : NewChannel → Option NewChannel × Option SessionError
outcome ch = elim (start_terminal ch) [ none ↦ (some ch, none) | some e ↦ (none, some e) ]

abbrev pub types : List NewChannel → List Text
types [] = []
types (ch ∷ chs) = ch.channel_type ∷ types chs

-- The channels of other types before a session are rejected, in order; the session is taken or
-- fails, and the channels after it are not looked at.
pub new_session_lem :
    (rejected : List Text) (others later : List NewChannel) (ch : NewChannel)
    → NoSession others
    → ch.channel_type ≡ codes "session"
    → new_session rejected (others ++ ch ∷ later) ≡ (rejected ++ types others, outcome ch)
unfolding new_session
new_session_lem rejected [] later ch o s = elim (Option-cases (start_terminal ch)) [
  | inl e ↦
      rw
        (
          if_pos (text_discrete ch.channel_type (codes "session")) s _ _,
          append-nil rejected,
          e,
          new_session,
        )
        (rw (e, outcome) refl)
  | inr (x, e) ↦
      rw
        (
          if_pos (text_discrete ch.channel_type (codes "session")) s _ _,
          append-nil rejected,
          e,
          new_session,
        )
        (rw (e, outcome) refl)
]
new_session_lem rejected (c ∷ others) later ch o s =
    rw (if_neg (text_discrete c.channel_type (codes "session")) o.0 _ _) (
      new_session_lem (rejected ++ c.channel_type ∷ []) others later ch o.1 s
      ∙ ap (λ (r : List Text). (r, outcome ch))
          (append_assoc rejected (c.channel_type ∷ []) (types others)))
