-- ===== src/Session/Closing.antt =====
-- How often the terminal of a session is closed, whatever its goroutines do.
use ssh_chat.Prelude.{
  ℕ, ◌≡◌, refl, Bool, if◌then◌else◌, Option, none, List, [], ◌∷◌, Run, panics, returns, inl, inr,
  arith,
}
use ssh_chat.Session.{
  EnvVar, Request, Terminal, new_terminal, close, resized, serve, answer, keep_alive, Activity,
  requested, ticked, closed, act, act_all,
}
use ssh_chat.Session.Requests.{Run-cases}

-- The channel and the connection are closed, once, if and only if the terminal is done.
abbrev pub IsOnce : Terminal → Type 0
IsOnce t =
    (t.channel_closes ≡ (if t.done then 1 else 0)) × (t.conn_closes ≡ (if t.done then 1 else 0))

close-IsOnce : {E : Type 0} (t : Terminal) (e : Option E) → IsOnce t → IsOnce (close t e).0
unfolding close
close-IsOnce t e o = ground (arith, o.0, o.1)

keep_alive-IsOnce : (t : Terminal) (sent : Bool) → IsOnce t → IsOnce (keep_alive t sent)
unfolding keep_alive close
keep_alive-IsOnce t sent o = ground (arith, o.0, o.1)

module _ (set_size : ℕ → ℕ → Bool) (unmarshal_env : List ℕ → Option EnvVar) where
  serve-IsOnce :
      (t t' : Terminal) (ok : Bool) (req : Request)
      → serve set_size unmarshal_env t req ≡ returns (t', ok)
      → IsOnce t
      → IsOnce t'
  unfolding serve resized
  serve-IsOnce t t' ok req h o = ground (arith, h, o.0, o.1)

  answer-IsOnce :
      (t t' : Terminal) (req : Request) (r : Run (Terminal × Bool))
      → serve set_size unmarshal_env t req ≡ r
      → answer set_size unmarshal_env req r ≡ returns t'
      → IsOnce t
      → IsOnce t'
  unfolding answer
  answer-IsOnce t t' req panics e h o = ground (arith, h)
  answer-IsOnce t t' req (returns (t1, ok)) e h o =
      let s = serve-IsOnce t t1 ok req e o in ground (arith, h, s.0, s.1)

  returned : (s t : Terminal) → returns s ≡ returns t → IsOnce s → IsOnce t
  returned s t e o = ground (arith, e, o.0, o.1)

  act-IsOnce :
      (t t' : Terminal) (a : Activity)
      → act set_size unmarshal_env t a ≡ returns t'
      → IsOnce t
      → IsOnce t'
  unfolding act
  act-IsOnce t t' (requested req) h o =
      answer-IsOnce t t' req (serve set_size unmarshal_env t req) refl h o
  act-IsOnce t t' (ticked sent) h o = returned (keep_alive t sent) t' h (keep_alive-IsOnce t sent o)
  act-IsOnce t t' closed h o =
      returned (close {E = Unit {0}} t none).0 t' h (close-IsOnce {E = Unit {0}} t none o)

  act_all_keeps :
      (t t' : Terminal) (acts : List Activity)
      → act_all set_size unmarshal_env t acts ≡ returns t'
      → IsOnce t
      → IsOnce t'
  unfolding act_all
  act_all_keeps t t' [] h o = returned t t' h o
  act_all_keeps t t' (a ∷ rest) h o = elim (Run-cases (act set_size unmarshal_env t a)) [
    | inl e ↦ ground (arith, h, e)
    | inr (t1, e) ↦ act_all_keeps t1 t' rest (rw (e, act_all) at h) (act-IsOnce t t1 a e o)
  ]

  -- Whatever requests come, whatever ticks fail and however often the terminal is closed, in
  -- whatever order: its channel and its connection are closed exactly once if it is done, and else
  -- not at all.
  pub act_all-IsOnce :
      (t : Terminal) (acts : List Activity)
      → act_all set_size unmarshal_env new_terminal acts ≡ returns t
      → IsOnce t
  unfolding new_terminal
  act_all-IsOnce t acts h = act_all_keeps new_terminal t acts h (refl, refl)
