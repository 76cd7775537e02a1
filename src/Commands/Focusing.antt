-- ===== src/Commands/Focusing.antt =====
-- /focus of chat/command.go, and what the user that focuses is shown by `render` of
-- chat/message/user.go.
use ssh_chat.Prelude.{
  ℕ, ◌≡◌, ◌≢◌, refl, ap, ◌∙◌, inl, inr, Bool, true, false, not, ◌&&◌, ◌||◌, Bool-cases,
  if◌then◌else◌, ite, if_neg, ltb, Option, List, [], ◌∷◌, ◌++◌, length, assign, ==_iff, ◌==◌, Text,
  codes, text_discrete, lookup, trim_left, trim_space, split_at, after, result, returns, arith,
}
use ssh_chat.Sanitize
use ssh_chat.Set.{Set, Item, is_in, found, truth, itemize, key, value, is_nil}
use ssh_chat.Set
use ssh_chat.Set.Expiry.{live, reads_invisible, set-remove-live}
use ssh_chat.Message.{public_msg}
use ssh_chat.User.{User}
use ssh_chat.Render.{Users, Printing, render_for, stamped, set_at, render_public_for, render}
use ssh_chat.Room.{World, set_user}
use ssh_chat.Room
use ssh_chat.Commands.{Request, Ambient, reply}
use ssh_chat.Commands.Members.{focus, focus_loop}

module _ (printing : Printing) (now : ℕ) (users : Users) (u v : ℕ) (body : Text) (t : ℕ) where
  render-focus :
      u ≢ v
      → result (render printing now users u (public_msg v body t)) ≡ (
          if ltb 0 (Set.len (users u).focused)
            && not (found (live now (users u).focused (users v).id))
          then returns []
          else stamped printing
              (users u).config
              t
              (render_for printing (users u).config (users v) body))
  unfolding render render_public_for
  render-focus h =
      let focused = (users u).focused in
      let asked = reads_invisible now now focused (users v).id (users v).id (omega arith) in
      let users' =
        set_at printing users u
          (record (users u) { focused = after (is_in now focused (users v).id) }) in
      let others : users' v ≡ users v = ground (arith, h) in
      elim (Bool-cases (ltb 0 (Set.len focused))) [
        | inl e ↦ ground (arith, h, e, asked.2, others)
        | inr e ↦ ground (arith, h, e)
      ]

-- Some name is not empty once it is cleaned, and some such name is `k` by the normalization.
pub some_name : List Text → Bool
some_name [] = false
some_name (name ∷ names) =
    let rest = some_name names in ite (text_discrete (Sanitize.name name) []) rest true

pub is_named : (Text → Text) → List Text → Text → Bool
is_named normalize [] k = false
is_named normalize (name ∷ names) k =
    let rest = is_named normalize names k in
    ite (text_discrete (Sanitize.name name) []) rest
      (ite (text_discrete (normalize (Sanitize.name name)) (normalize k)) true rest)

length-assign :
    (k : Text) (it : Item ℕ) (m : List (Text × Item ℕ)) → ltb 0 (length (assign k it m)) ≡ true
unfolding assign
length-assign k it [] = ground arith
length-assign k it ((j, w) ∷ m) = elim (text_discrete j k) [
  | yes p ↦ ground arith
  | no p ↦ ground arith
]

module _ (now : ℕ) where
  focused-found :
      (s : Set ℕ) (id k : Text)
      → found (live now (after (Set.set s (itemize id truth))) k)
        ≡ ite (text_discrete (s.normalize id) (s.normalize k)) true (found (live now s k))
  unfolding key value is_nil found
  focused-found s id k = ap found ((set-remove-live now s (itemize id truth) id k).1) ∙ ground arith

  -- What a reader finds in the set that the loop of /focus leaves.
  focus_loop-found :
      (s : Set ℕ) (fs names : List Text) (k : Text)
      → found (live now (focus_loop s fs names).0 k)
        ≡ (is_named s.normalize names k || found (live now s k))
  unfolding focus_loop is_named Set.set Set.store
  focus_loop-found s fs [] k = refl
  focus_loop-found s fs (name ∷ names) k =
      let id = Sanitize.name name in
      let s' = after (Set.set s (itemize id truth)) in
      ground (
        arith,
        focus_loop-found s fs names k,
        focus_loop-found s' (fs ++ id ∷ []) names k,
        focused-found s id k,
      )

  -- The set is empty exactly if it was, and no name was added.
  focus_loop-len :
      (s : Set ℕ) (fs names : List Text)
      → ltb 0 (Set.len (focus_loop s fs names).0) ≡ (some_name names || ltb 0 (Set.len s))
  unfolding focus_loop some_name Set.set Set.store Set.len key
  focus_loop-len s fs [] = refl
  focus_loop-len s fs (name ∷ names) =
      let id = Sanitize.name name in
      let s' = after (Set.set s (itemize id truth)) in
      let filled : ltb 0 (Set.len s') ≡ true =
        length-assign (s.normalize id) (itemize id truth) s.table in
      ground (arith, focus_loop-len s fs names, focus_loop-len s' (fs ++ id ∷ []) names, filled)

module _ (env : Ambient) (w : World) (req : Request) where
  -- The text after /focus.
  abbrev pub focus_text : Text
  focus_text = trim_space (trim_left req.body (codes "/focus"))

  abbrev focused_on : Set ℕ
  focused_on = (focus_loop (Set.clear (w.users req.from).focused).0 [] (split_at focus_text 32)).0

  abbrev focusing : User
  focusing = record (w.users req.from) { focused = focused_on }

  focus-users :
      focus_text ≢ []
      → focus_text ≢ codes "$"
      → (after (focus env w req)).users ≡ (λ i. if req.from == i then focusing else w.users i)
  unfolding focus reply set_user Room.send
  focus-users given other =
      ap (λ (r : World × Option Text). (after r).users)
        (if_neg (text_discrete focus_text []) given _ _
          ∙ if_neg (text_discrete focus_text (codes "$")) other _ _)

  focused_on-found :
      (now : ℕ) (k : Text)
      → (ltb 0 (Set.len focused_on) ≡ some_name (split_at focus_text 32))
        × (found (live now focused_on k)
            ≡ is_named (w.users req.from).focused.normalize (split_at focus_text 32) k)
  unfolding Set.clear Set.len found lookup
  focused_on-found now k =
      let s = (Set.clear (w.users req.from).focused).0 in
      let a = focus_loop-len now s [] (split_at focus_text 32) in
      let b = focus_loop-found now s [] (split_at focus_text 32) k in
      (ground (arith, a), ground (arith, b))

  -- After /focus with names, the user that gave it is shown a public message of another user, at
  -- any later time, as it would be without a focus if that other user was named, or if no name was
  -- left, and is shown nothing of it if not. A name counts as it is cleaned, up to the case of
  -- letters; one that is empty once it is cleaned is skipped. What was focused on before is gone.
  pub focus-render :
      (printing : Printing) (later v t : ℕ) (body : Text)
      → focus_text ≢ []
      → focus_text ≢ codes "$"
      → req.from ≢ v
      → let names = split_at focus_text 32 in
        let cfg = (w.users req.from).config in
        let users' = (after (focus env w req)).users in
        result (render printing later users' req.from (public_msg v body t)) ≡ (
          if some_name names
            && not (is_named (w.users req.from).focused.normalize names (w.users v).id)
          then returns []
          else stamped printing cfg t (render_for printing cfg (w.users v) body))
  focus-render printing later v t body given other apart =
      let users' : Users = λ i. if req.from == i then focusing else w.users i in
      let f = focused_on-found later (w.users v).id in
      let self : users' req.from ≡ focusing = rw ((==_iff req.from req.from).1 refl) refl in
      let another : users' v ≡ w.users v = ground (arith, apart) in
      ap (λ (us : Users). result (render printing later us req.from (public_msg v body t)))
        (focus-users given other)
      ∙ render-focus printing later users' req.from v body t apart
      ∙ rw (another, self) (rw (f.0, f.1) refl)
