-- ===== src/Terminal/Reading/Enough.antt =====
-- The loop over the keys comes to an end: every key takes at least one byte.
use ssh_chat.Prelude.{
  ℕ, zero, suc, ◌≤◌, ◌<◌, ◌≡◌, ◌≢◌, refl, ap, Bool-cases, inl, inr, Bool, true, false, not, ◌&&◌,
  if◌then◌else◌, ◌==◌, Option, Option-cases, List, [], length, length-append, Text, result, arith,
}
use ssh_chat.Keys.{rune_error, key_paste_start, key_paste_end, bytes_to_key}
use ssh_chat.Keys.Progress.{Takes, bytes_to_key-progress}
use ssh_chat.Terminal.{Terminal, Runes, key_ctrl_d}
use ssh_chat.Terminal.Editor.{handle_key}
use ssh_chat.Terminal.Reading.{Round, finish_key, key_loop}

Takes-shorter : (b rest : List ℕ) → Takes b rest → length rest < length b
Takes-shorter b rest t = rw (t.splits) (omega (arith, length-append t.others rest))

module _ (wide : ℕ → Bool) (to_text : Runes → Text) (to_runes : Text → Runes)
    (auto_complete : Option (Text → ℕ → ℕ → Option (Text × ℕ))) (full_rune : List ℕ → Bool)
    (decode_rune : List ℕ → ℕ × ℕ)
    (decodes : (b : List ℕ)
      → b ≢ []
      → (1 ≤ (decode_rune b).1) × ((decode_rune b).1 ≤ length b)) where
  abbrev loop : ℕ → Terminal → List ℕ → Bool → Round
  loop = key_loop wide to_text to_runes auto_complete full_rune decode_rune

  abbrev finish : Terminal → List ℕ → Bool → ℕ → (Terminal → Bool → Round) → Round
  finish = finish_key wide to_text to_runes auto_complete full_rune decode_rune

  -- A key that is read is taken from the input.
  key-shorter :
      (input : List ℕ) (paste : Bool)
      → let r = bytes_to_key full_rune decode_rune input paste in
        (r.0 == rune_error) ≡ false → length r.1 < length input
  key-shorter input paste e =
      elim (bytes_to_key-progress full_rune decode_rune input paste (decodes input)) [
        | inl t ↦ Takes-shorter input _ t
        | inr same ↦ ground (arith, e, ap (λ (r : ℕ × List ℕ). r.0) same)
      ]

  finish-next :
      (t : Terminal) (rest : List ℕ) (p : Bool) (key : ℕ) (f g : Terminal → Bool → Round)
      → ((t' : Terminal) (q : Bool) → f t' q ≡ g t' q)
      → finish t rest p key f ≡ finish t rest p key g
  finish-next t rest p key f g same =
      elim (Option-cases (result (handle_key wide to_text to_runes auto_complete t key))) [
        | inl e ↦ rw (e, finish_key) (same _ _)
        | inr (line, e) ↦ rw (e, finish_key) refl
      ]

  if-else :
      {A : Type 0} (b : Bool) (r q q' : A) → q ≡ q' → (if b then r else q) ≡ (if b then r else q')
  if-else true r q q' e = refl
  if-else false r q q' e = e

  if-both :
      {A : Type 0} (b : Bool) (r r' q q' : A)
      → r ≡ r'
      → q ≡ q'
      → (if b then r else q) ≡ (if b then r' else q')
  if-both true r r' q q' e f = e
  if-both false r r' q q' e f = f

  -- The loop over the keys is over when the input is: more rounds than the input has bytes change
  -- nothing, if `utf8.DecodeRune` says of an input that is not empty that its first rune has at least
  -- one byte and no more than there are.
  pub key_loop_enough :
      (m n : ℕ) (t : Terminal) (input : List ℕ) (p : Bool)
      → length input < m
      → length input < n
      → loop m t input p ≡ loop n t input p
  unfolding key_loop
  key_loop_enough zero n t input p h k = absurd (ground (arith, h))
  key_loop_enough (suc m) zero t input p h k = absurd (ground (arith, k))
  key_loop_enough (suc m) (suc n) t input p h k =
      let (key, rest) = bytes_to_key full_rune decode_rune input t.paste_active in
      elim (Bool-cases (key == rune_error)) [
        | inl e ↦ rw (e, key_loop) refl
        | inr e ↦
            let less = key-shorter input t.paste_active e in
            let same : (t' : Terminal) (q : Bool) → loop m t' rest q ≡ loop n t' rest q = λ t' q.
              key_loop_enough m n t' rest q (omega (arith, h, less)) (omega (arith, k, less)) in
            if-else (key == rune_error) _ _ _ (
              if-else (not t.paste_active && key == key_ctrl_d && length t.line == 0) _ _ _ (
                if-both (not t.paste_active && key == key_paste_start) _ _ _ _ (same _ _) (
                  if-both (t.paste_active && key == key_paste_end) _ _ _ _ (same _ _)
                    (finish-next t rest p key _ _ same))))
      ]
