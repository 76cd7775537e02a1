-- ===== src/Message/Input.antt =====
-- What `ParseInput` of chat/message/message.go makes of a line.
use ssh_chat.Prelude.{
  ℕ, ◌-◌, ◌≡◌, refl, sym, inl, inr, Bool-cases, true, false, ◌==◌, some, List, [], ◌∷◌, ◌++◌, Text,
  codes, has_prefix, fields, fields_from, space_size, returns, arith,
}
use mathlib.Core.Path.{subst}
use ssh_chat.Message.{public_msg, command_msg, parse_command, parse_input}

-- The first of the fields begins with a byte.
abbrev Begins : ℕ → List Text → Type 0
Begins c l = (s : Text) × (more : List Text) × (l ≡ (c ∷ s) ∷ more)

fields_from-Begins : (c : ℕ) (cur s : Text) → Begins c (fields_from 0 (c ∷ cur) s)
unfolding fields_from
fields_from-Begins c cur [] = (cur, [], refl)
fields_from-Begins c cur (d ∷ s) = elim (Bool-cases (space_size (d ∷ s) == 0)) [
  | inl e ↦ rw e (fields_from-Begins c (cur ++ d ∷ []) s)
  | inr e ↦ rw e (cur, fields_from (space_size (d ∷ s) - 1) [] s, refl)
]

slash_size : (s : Text) → space_size (47 ∷ s) ≡ 0
unfolding space_size
slash_size [] = refl
slash_size (b ∷ []) = refl
slash_size (b ∷ c ∷ s) = refl

fields-Begins : (s : Text) → Begins 47 (fields (47 ∷ s))
unfolding fields fields_from
fields-Begins s = rw (slash_size s) (fields_from-Begins 47 [] s)

pub parse_command_slash :
    (u : ℕ) (s : Text) (t : ℕ)
    → (c : Text) × (args : List Text) × (parse_command u (47 ∷ s) t
        ≡ returns (some (command_msg u (47 ∷ s) t (47 ∷ c) args)))
unfolding parse_command has_prefix
parse_command_slash u s t = let b = fields-Begins s in (b.0, b.1, rw (b.2) refl)

parse_input_slash :
    (u : ℕ) (s : Text) (t : ℕ)
    → (c : Text) × (args : List Text) × (parse_input u (47 ∷ s) t
        ≡ returns (command_msg u (47 ∷ s) t (47 ∷ c) args))
unfolding parse_input
parse_input_slash u s t =
    let b = parse_command_slash u s t in (b.0, b.1, rw (b.2, parse_input) refl)

parse_input_plain :
    (u : ℕ) (body : Text) (t : ℕ)
    → has_prefix body (codes "/") ≡ false
    → parse_input u body t ≡ returns (public_msg u body t)
unfolding parse_input parse_command has_prefix
parse_input_plain u body t h = rw (h, parse_command) refl

parse_slash :
    (u d : ℕ) (s : Text) (t : ℕ)
    → has_prefix (d ∷ s) (codes "/") ≡ true
    → (c : Text) × (args : List Text) × (parse_input u (d ∷ s) t
        ≡ returns (command_msg u (d ∷ s) t (47 ∷ c) args))
unfolding has_prefix
parse_slash u d s t h =
    let slash : d ≡ 47 = ground (arith, h) in
    subst
      (λ (e : ℕ).
        (c : Text) × (args : List Text) × (parse_input u (e ∷ s) t
          ≡ returns (command_msg u (e ∷ s) t (47 ∷ c) args)))
      (sym slash) (parse_input_slash u s t)

-- A line that begins with a slash is a command with that line as its body, whose name begins with a
-- slash too: the field that `ParseCommand` takes for it is there, and nothing panics. Any other line
-- is a public message.
pub parse_input_lem :
    (u : ℕ) (body : Text) (t : ℕ)
    → (has_prefix body (codes "/") ≡ true
        → (c : Text) × (args : List Text) × (parse_input u body t
            ≡ returns (command_msg u body t (47 ∷ c) args)))
      × (has_prefix body (codes "/") ≡ false → parse_input u body t ≡ returns (public_msg u body t))
unfolding has_prefix
parse_input_lem u [] t = (λ h. ground (arith, h), parse_input_plain u [] t)
parse_input_lem u (d ∷ s) t = (λ h. parse_slash u d s t h, parse_input_plain u (d ∷ s) t)
