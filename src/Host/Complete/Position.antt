-- ===== src/Host/Complete/Position.antt =====
-- Where the completion of a word leaves the line and its cursor.
use ssh_chat.Prelude.{take-append, drop-append}
use ssh_chat.Prelude.{
  ◌∙◌, ◌⊎◌, sym, true, false, inl, inr, length-append, none, some, Option-cases, Bool-cases, fields,
  codes, text_discrete, ite, not, ◌||◌, ◌==◌, ltb, result, has_suffix, ℕ, ◌+◌, ◌-◌, ◌≡◌, ◌≢◌, refl,
  ap, ap₂, true, [], ◌∷◌, ◌++◌, length, take, Text, has_prefix, replace_first, arith,
}
use mathlib.Core.List.{append_assoc}
use ssh_chat.Auth.{Externals}
use ssh_chat.Host.{Host}
use ssh_chat.Host.Complete.{reposition, last_field, completed_word, auto_complete}

has_prefix-append : (p s : Text) → has_prefix (p ++ s) p ≡ true
unfolding has_prefix
has_prefix-append [] s = refl
has_prefix-append (c ∷ p) s = ground (arith, has_prefix-append p s)

replace_first-front : (c : ℕ) (p s new : Text) → replace_first ((c ∷ p) ++ s) (c ∷ p) new ≡ new ++ s
unfolding replace_first
replace_first-front c p s new = rw (has_prefix-append p s, drop-append p s) (ground arith)

-- If the text before the cursor ends with the partial word, the completed word takes its place, and
-- the cursor stands after it.
pub reposition_lem :
    (before partial rest completed : Text)
    → partial ≢ []
    → reposition (before ++ (partial ++ rest)) (length before + length partial) partial completed
      ≡ (before ++ (completed ++ rest), length before + length completed)
unfolding reposition
reposition_lem before [] rest completed h = absurd (h refl)
reposition_lem before (c ∷ p) rest completed h =
    let start : length before + length (c ∷ p) - length (c ∷ p) ≡ length before = omega arith in
    let end : length before + length (c ∷ p) + length completed - length (c ∷ p)
        ≡ length before + length completed =
      omega arith in
    rw (start, reposition)
      (rw
        (
          take-append before ((c ∷ p) ++ rest),
          drop-append before ((c ∷ p) ++ rest),
          replace_first-front c p rest completed,
        )
        (ap (λ n. (before ++ (completed ++ rest), n)) end))

module _ (x : Externals) (now : ℕ) (h : Host x) (u : ℕ) (before partial rest : Text) where
  abbrev whole : Text
  whole = before ++ (partial ++ rest)

  abbrev cursor : ℕ
  cursor = length before + length partial

  text_before : take cursor whole ≡ before ++ partial
  text_before =
      ap₂ (λ (n : ℕ) (t : Text). take n t) (sym (length-append before partial))
        (sym (append_assoc before partial rest))
      ∙ take-append (before ++ partial) rest

  auto_complete-cases :
      (key : ℕ)
      → last_field (fields (before ++ partial)) ≡ partial
      → (result (auto_complete x now h u whole cursor key) ≡ none)
        ⊎ ((word : Text) × (result (auto_complete x now h u whole cursor key)
              ≡ some (reposition whole cursor partial (word ++ codes " "))))
  unfolding auto_complete
  auto_complete-cases key last = elim (Bool-cases (not (key == 9))) [
    | inl e ↦ inl (rw (e, auto_complete) refl)
    | inr e ↦
        elim (Bool-cases
          (ite (text_discrete whole []) true false || has_suffix (take cursor whole) (codes " "))) [
            | inl f ↦ inl (rw (e, f, auto_complete) refl)
            | inr f ↦
                let field : last_field (fields (take cursor whole)) ≡ partial =
                  ap (λ (t : Text). last_field (fields t)) text_before ∙ last in
                let words = fields (take cursor whole) in
                let completed =
                  completed_word x now h u whole (ltb (length words) 2) (last_field words) in
                elim (Option-cases (result completed)) [
                  | inl c ↦ inl (rw (e, f, c, auto_complete) refl)
                  | inr (word, c) ↦ inr (
                    word,
                    rw (e, f, c, auto_complete)
                        (ap (λ (w : Text). some (reposition whole cursor w (word ++ codes " ")))
                          field),
                  )
                ]
          ]
  ]

  -- If the text before the cursor ends with its last field, a completion puts a word and a blank in
  -- the place of that field, and the cursor after them: it never leaves the line.
  pub auto_complete-fits :
      (key : ℕ)
      → partial ≢ []
      → last_field (fields (before ++ partial)) ≡ partial
      → (result (auto_complete x now h u whole cursor key) ≡ none)
        ⊎ ((word : Text) × (result (auto_complete x now h u whole cursor key)
              ≡ some (
                before ++ ((word ++ codes " ") ++ rest),
                length before + length (word ++ codes " "),
              )))
  auto_complete-fits key some_word last = elim (auto_complete-cases key last) [
    | inl e ↦ inl e
    | inr (word, e) ↦
        inr (word, e ∙ ap some (reposition_lem before partial rest (word ++ codes " ") some_word))
  ]
