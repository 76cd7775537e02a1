-- ===== src/Listener/Served.antt =====
-- What becomes of the connections that the listener accepts, whatever order the goroutines run in.
use ssh_chat.Prelude.{
  ℕ, zero, suc, ◌+◌, ◌*◌, ◌≡◌, ◌≢◌, refl, ap, ◌∙◌, sym, Bool, true, false, Option, none, some, List,
  [], ◌∷◌, ◌++◌, Result, ok, err, get_elem?, arith, Result-cases, get_elem?-set_ne, inl, inr, ◌⊎◌,
  if◌then◌else◌, ℕ_discrete,
}
use ssh_chat.Prelude
use ssh_chat.Session.{ServerConn, NewChannel}
use ssh_chat.Listener.{
  Link, accepted_link, read_limit_conn, set_read_deadline, Handshake, ConnError, upgrade, begin,
  Phase, accepted, handshaking, handed, dropped, finish, Listener, listen_ssh, accept_conn,
  close_socket, set_conn, Step, accepts, fails, begins, finishes, Steps, no_step, step,
}
use ssh_chat.Listener.Sessions.{IsShell, upgrade-IsShell}

-- Before its goroutine begins a connection is untouched; in the handshake it is limited if the
-- listener limits, and has a deadline. One that is handed over is still limited, open, without a
-- deadline, and runs a shell; one that is dropped is closed, once.
abbrev pub IsSound : Bool → Link × Phase → Type 0
IsSound rate_limit (c, accepted) = c ≡ accepted_link
IsSound rate_limit (c, handshaking) =
    (c.limited ≡ rate_limit) × (c.deadline ≢ none) × (c.closes ≡ 0)
IsSound rate_limit (c, handed conn ch) =
    (c.limited ≡ rate_limit) × (c.deadline ≡ none) × (c.closes ≡ 0) × IsShell ch
IsSound rate_limit (c, dropped e) = (c.limited ≡ rate_limit) × (c.deadline ≡ none) × (c.closes ≡ 1)

abbrev pub AreSound : Bool → List (Link × Phase) → Type 0
AreSound rate_limit [] = Unit {0}
AreSound rate_limit (c ∷ cs) = IsSound rate_limit c × AreSound rate_limit cs

module _ (rate_limit : Bool) where
  append-AreSound :
      (cs : List (Link × Phase)) (c : Link × Phase)
      → AreSound rate_limit cs
      → IsSound rate_limit c
      → AreSound rate_limit (cs ++ c ∷ [])
  append-AreSound [] c a s = (s, tt)
  append-AreSound (d ∷ cs) c a s = (a.0, append-AreSound cs c a.1 s)

  set-AreSound :
      (cs : List (Link × Phase)) (i : ℕ) (c : Link × Phase)
      → AreSound rate_limit cs
      → IsSound rate_limit c
      → AreSound rate_limit (Prelude.set cs i c)
  set-AreSound [] i c a s = tt
  set-AreSound (d ∷ cs) zero c a s = (s, a.1)
  set-AreSound (d ∷ cs) (suc i) c a s = (a.0, set-AreSound cs i c a.1 s)

  pub some_inj : (d c : Link × Phase) → some d ≡ some c → d ≡ c
  some_inj d c e = ground (arith, e)

  get_elem?-IsSound :
      (cs : List (Link × Phase)) (i : ℕ) (c : Link × Phase)
      → AreSound rate_limit cs
      → get_elem? cs i ≡ some c
      → IsSound rate_limit c
  get_elem?-IsSound [] i c a e = ground (arith, e)
  get_elem?-IsSound (d ∷ cs) zero c a e = rw (sym (some_inj d c e)) a.0
  get_elem?-IsSound (d ∷ cs) (suc i) c a e = get_elem?-IsSound cs i c a.1 e

  begin-IsSound :
      (now : ℕ) (c : Link)
      → c ≡ accepted_link
      → IsSound rate_limit (begin rate_limit now c, handshaking)
  unfolding begin accepted_link read_limit_conn set_read_deadline
  begin-IsSound now c e = rw e (ground arith, λ h. ground (arith, h), ground arith)

  pub finish_ok :
      (c : Link) (h : Handshake) (r : ServerConn × NewChannel)
      → upgrade h ≡ ok r
      → finish c h ≡ (set_read_deadline c none, handed r.0 r.1)
  unfolding finish
  finish_ok c h r e = rw (e, finish) refl

  pub finish_err :
      (c : Link) (h : Handshake) (x : ConnError)
      → upgrade h ≡ err x
      → finish c h ≡ (record (set_read_deadline c none) { closes = suc c.closes }, dropped x)
  unfolding finish set_read_deadline
  finish_err c h x e = rw (e, finish) refl

  finish-IsSound :
      (c : Link) (h : Handshake)
      → IsSound rate_limit (c, handshaking)
      → IsSound rate_limit (finish c h)
  unfolding set_read_deadline
  finish-IsSound c h s = elim (Result-cases (upgrade h)) [
    | inl (r, e) ↦ rw (finish_ok c h r e) (s.0, refl, s.2, upgrade-IsShell h r.0 r.1 e)
    | inr (x, e) ↦ rw (finish_err c h x e) (s.0, refl, ap suc s.2)
  ]

  Step-AreSound :
      (l m : Listener)
      → Step rate_limit l m
      → AreSound rate_limit l.conns
      → AreSound rate_limit m.conns
  unfolding accept_conn close_socket set_conn
  Step-AreSound _ _ (accepts l o) a = append-AreSound l.conns (accepted_link, accepted) a refl
  Step-AreSound _ _ (fails l o) a = a
  Step-AreSound _ _ (begins l i now c e) a =
      set-AreSound l.conns i (begin rate_limit now c, handshaking) a
        (begin-IsSound now c (get_elem?-IsSound l.conns i (c, accepted) a e))
  Step-AreSound _ _ (finishes l i c h e) a =
      set-AreSound l.conns i (finish c h) a
        (finish-IsSound c h (get_elem?-IsSound l.conns i (c, handshaking) a e))

  Steps-keeps :
      (l m : Listener)
      → Steps rate_limit l m
      → AreSound rate_limit l.conns
      → AreSound rate_limit m.conns
  Steps-keeps _ _ (no_step l) a = a
  Steps-keeps _ _ (step l m n s rest) a = Steps-keeps m n rest (Step-AreSound l m s a)

  -- However the loop of `Serve` and the goroutines of its connections take turns, every connection
  -- is untouched yet, in a handshake with a deadline, closed once and without a deadline, or handed
  -- over, open, without a deadline, for a channel of a session on which a shell was asked for. It is
  -- limited from its handshake on if the listener limits.
  pub Steps-AreSound : (l : Listener) → Steps rate_limit listen_ssh l → AreSound rate_limit l.conns
  unfolding listen_ssh
  Steps-AreSound l s = Steps-keeps listen_ssh l s tt
