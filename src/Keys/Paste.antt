-- ===== src/Keys/Paste.antt =====
-- What `bytesToKey` of sshd/terminal/terminal.go reads while text is pasted.
use ssh_chat.Prelude.{
  ℕ, ◌≡◌, refl, sym, ◌∙◌, ◌⊎◌, inl, inr, Bool, true, false, ◌==◌, Bool-cases, Option-cases, some,
  List, [], ◌∷◌, ◌++◌, arith,
}
use ssh_chat.Keys.{
  rune_error, key_escape, key_paste_end, paste_start, paste_end, key_paste_start, key_unknown,
  control_key, drop_prefix, prefixed_key, marker, ends_sequence, unknown_key, typed_key, escape_key,
  sequence_key, bytes_to_key, arrow_key, alt_letter_key, alt_arrow_key,
}

marker_key :
    (mark : List ℕ) (key : ℕ) (b r : List ℕ) (k : ℕ) → marker mark key b ≡ some (k, r) → k ≡ key
unfolding marker
marker_key mark key b r k h = elim (Option-cases (drop_prefix mark b)) [
  | inl e ↦ ground (arith, h, e)
  | inr (rest, e) ↦ ground (arith, h, e)
]

unknown_key_lem : (b r : List ℕ) (k : ℕ) → unknown_key b ≡ some (k, r) → k ≡ key_unknown
unfolding unknown_key
unknown_key_lem [] r k h = ground arith
unknown_key_lem (c ∷ cs) r k h = elim (Bool-cases (ends_sequence c)) [
  | inl e ↦ ground (arith, h, e)
  | inr e ↦ unknown_key_lem cs r k (sym (rw e refl) ∙ h)
]

escape_key_lem :
    (b r : List ℕ) (k : ℕ)
    → escape_key true b ≡ some (k, r)
    → (k ≡ key_paste_end) ⊎ (k ≡ key_unknown)
unfolding escape_key
escape_key_lem b r k h = elim (Option-cases (marker paste_end key_paste_end b)) [
  | inl e ↦ inr (unknown_key_lem b r k (sym (rw e refl) ∙ h))
  | inr ((j, q), e) ↦ inl (marker_key paste_end key_paste_end b r k (e ∙ (sym (rw e refl) ∙ h)))
]

module _ (full_rune : List ℕ → Bool) (decode_rune : List ℕ → ℕ × ℕ) where
  -- While text is pasted, no key for editing, for the cursor or for the history is read from escape
  -- sequences or control bytes: a key is `utf8.RuneError`, the end of the paste, the key that is
  -- not known, or the rune at the front of the input.
  pub bytes_to_key-pasted :
      (b : List ℕ)
      → let k = (bytes_to_key full_rune decode_rune b true).0 in
        (k ≡ rune_error) ⊎ ((k ≡ key_paste_end) ⊎ ((k ≡ key_unknown) ⊎ (k ≡ (decode_rune b).0)))
  unfolding bytes_to_key sequence_key
  bytes_to_key-pasted [] = inl refl
  bytes_to_key-pasted (c ∷ cs) = elim (Bool-cases (c == key_escape)) [
    | inl e ↦ elim (Option-cases (escape_key true (c ∷ cs))) [
      | inl f ↦ inl (rw (e, f) refl)
      | inr ((k, r), f) ↦ elim (escape_key_lem (c ∷ cs) r k f) [
        | inl g ↦ inr (inl (rw (e, f) g))
        | inr g ↦ inr (inr (inl (rw (e, f) g)))
      ]
    ]
    | inr e ↦ elim (Bool-cases (full_rune (c ∷ cs))) [
      | inl f ↦ inr (inr (inr (rw (e, f) refl)))
      | inr f ↦ inl (rw (e, f) refl)
    ]
  ]

  -- The marker of the start of a paste is read as such while nothing is pasted, the marker of its
  -- end during a paste, whatever follows them, and both are taken from the input whole.
  pub bytes_to_key-marks :
      (rest : List ℕ)
      → (bytes_to_key full_rune decode_rune (paste_start ++ rest) false ≡ (key_paste_start, rest))
        × (bytes_to_key full_rune decode_rune (paste_end ++ rest) true ≡ (key_paste_end, rest))
  unfolding bytes_to_key sequence_key control_key escape_key typed_key prefixed_key drop_prefix
      marker arrow_key alt_arrow_key alt_letter_key unknown_key
  bytes_to_key-marks rest = (refl, refl)
