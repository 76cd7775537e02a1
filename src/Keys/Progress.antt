-- ===== src/Keys/Progress.antt =====
-- What `bytesToKey` of sshd/terminal/terminal.go takes from the input.
use ssh_chat.Prelude.{
  ℕ, suc, zero, ◌≤◌, ◌≡◌, ◌≢◌, refl, ap, sym, ◌∙◌, ◌⊎◌, inl, inr, Bool, true, false, ◌==◌,
  Bool-cases, Option-cases, Option, none, some, List, [], ◌∷◌, ◌++◌, length, take, drop,
  take-append-drop, arith,
}
use mathlib.Core.List.{append_assoc}
use ssh_chat.Keys.{
  rune_error, key_escape, key_paste_end, paste_start, paste_end, key_paste_start, control_key,
  arrow_key, alt_arrow_key, alt_letter_key, with_rest, drop_prefix, prefixed_key, marker,
  ends_sequence, unknown_key, or_else, typed_key, escape_key, sequence_key, bytes_to_key,
}

-- The rest is what follows some bytes, at least one, at the front of the input.
pub record Takes (b rest : List ℕ) : Type 0 where
  pub first : ℕ
  pub others : List ℕ
  pub splits : b ≡ first ∷ (others ++ rest)

drop_prefix_lem : (p b r : List ℕ) → drop_prefix p b ≡ some r → b ≡ p ++ r
unfolding drop_prefix
drop_prefix_lem [] b r h = ground arith
drop_prefix_lem (p ∷ ps) [] r h = ground arith
drop_prefix_lem (p ∷ ps) (c ∷ cs) r h = elim (Bool-cases (p == c)) [
  | inl e ↦
      let rest : cs ≡ ps ++ r = drop_prefix_lem ps cs r (ground (arith, h, e)) in
      ground (arith, rest, e)
  | inr e ↦ ground (arith, h, e)
]

with_rest_lem : (rest r : List ℕ) (k : ℕ) (o : Option ℕ) → with_rest rest o ≡ some (k, r) → rest ≡ r
with_rest_lem rest r k none h = ground arith
with_rest_lem rest r k (some x) h = ground arith

prefixed_key-Takes :
    (p : ℕ) (ps : List ℕ) (key : ℕ → Option ℕ) (b r : List ℕ) (k : ℕ)
    → prefixed_key (p ∷ ps) key b ≡ some (k, r)
    → Takes b r
unfolding prefixed_key
prefixed_key-Takes p ps key b r k h = elim (Option-cases (drop_prefix (p ∷ ps) b)) [
  | inl e ↦ ground (arith, h, e)
  | inr ([], e) ↦ ground (arith, h, e)
  | inr (c ∷ rest, e) ↦
      let same : rest ≡ r = with_rest_lem rest r k (key c) (sym (rw (e, prefixed_key) refl) ∙ h) in
      record {
        first = p;
        others = ps ++ c ∷ [];
        splits =
            drop_prefix_lem (p ∷ ps) b (c ∷ rest) e
            ∙ ap (◌∷◌ p) (rw same (sym (append_assoc ps (c ∷ []) r)));
      }
]

marker-Takes :
    (p : ℕ) (ps : List ℕ) (key : ℕ) (b r : List ℕ) (k : ℕ)
    → marker (p ∷ ps) key b ≡ some (k, r)
    → Takes b r
unfolding marker
marker-Takes p ps key b r k h = elim (Option-cases (drop_prefix (p ∷ ps) b)) [
  | inl e ↦ ground (arith, h, e)
  | inr (rest, e) ↦
      let same : rest ≡ r = ground (arith, h, e) in
      record {
        first = p;
        others = ps;
        splits = drop_prefix_lem (p ∷ ps) b rest e ∙ ap (λ x. p ∷ (ps ++ x)) same;
      }
]

unknown_key-Takes : (b r : List ℕ) (k : ℕ) → unknown_key b ≡ some (k, r) → Takes b r
unfolding unknown_key
unknown_key-Takes [] r k h = ground arith
unknown_key-Takes (c ∷ cs) r k h = elim (Bool-cases (ends_sequence c)) [
  | inl e ↦
      let same : cs ≡ r = ground (arith, h, e) in
      record { first = c; others = []; splits = ap (◌∷◌ c) same }
  | inr e ↦
      let t : Takes cs r = unknown_key-Takes cs r k (sym (rw e refl) ∙ h) in
      record { first = c; others = t.first ∷ t.others; splits = ap (◌∷◌ c) t.splits }
]

-- What a parser read, if anything, is taken from the input.
abbrev Reads : List ℕ → Option (ℕ × List ℕ) → Type 0
Reads b o = (r : List ℕ) (k : ℕ) → o ≡ some (k, r) → Takes b r

or_else-Reads :
    (b : List ℕ) (x y : Option (ℕ × List ℕ)) → Reads b x → Reads b y → Reads b (or_else x y)
or_else-Reads b none y f g r k h = g r k h
or_else-Reads b (some x) y f g r k h = f r k h

typed_key-Takes : (b : List ℕ) → Reads b (typed_key b)
unfolding typed_key
typed_key-Takes b =
    let arrow = prefixed_key (27 ∷ 91 ∷ []) arrow_key b in
    let alt_arrow = prefixed_key (27 ∷ 91 ∷ 49 ∷ 59 ∷ 51 ∷ []) alt_arrow_key b in
    let alt_letter = prefixed_key (27 ∷ []) alt_letter_key b in
    let start = marker paste_start key_paste_start b in
    or_else-Reads b arrow (or_else alt_arrow (or_else alt_letter start))
      (prefixed_key-Takes 27 (91 ∷ []) arrow_key b)
      (or_else-Reads b alt_arrow (or_else alt_letter start)
        (prefixed_key-Takes 27 (91 ∷ 49 ∷ 59 ∷ 51 ∷ []) alt_arrow_key b)
        (or_else-Reads b alt_letter start (prefixed_key-Takes 27 [] alt_letter_key b)
          (marker-Takes 27 (91 ∷ 50 ∷ 48 ∷ 48 ∷ 126 ∷ []) key_paste_start b)))

escape_key-Takes : (paste : Bool) (b : List ℕ) → Reads b (escape_key paste b)
unfolding escape_key
escape_key-Takes false b =
    or_else-Reads b (typed_key b) (unknown_key b) (typed_key-Takes b) (unknown_key-Takes b)
escape_key-Takes true b =
    or_else-Reads b (marker paste_end key_paste_end b) (unknown_key b)
      (marker-Takes 27 (91 ∷ 50 ∷ 48 ∷ 49 ∷ 126 ∷ []) key_paste_end b) (unknown_key-Takes b)

drop-Takes : (b : List ℕ) (n : ℕ) → 1 ≤ n → n ≤ length b → Takes b (drop n b)
drop-Takes [] n h g = ground arith
drop-Takes (c ∷ cs) zero h g = ground arith
drop-Takes (c ∷ cs) (suc n) h g = record {
  first = c;
  others = take n cs;
  splits = ap (◌∷◌ c) (sym (take-append-drop n cs));
}

module _ (full_rune : List ℕ → Bool) (decode_rune : List ℕ → ℕ × ℕ) where
  sequence_key-progress :
      (paste : Bool) (c : ℕ) (cs : List ℕ)
      → ((1 ≤ (decode_rune (c ∷ cs)).1) × ((decode_rune (c ∷ cs)).1 ≤ length (c ∷ cs)))
      → let r = sequence_key full_rune decode_rune paste c cs in
        Takes (c ∷ cs) r.1 ⊎ (r ≡ (rune_error, c ∷ cs))
  unfolding sequence_key
  sequence_key-progress paste c cs d = elim (Bool-cases (c == key_escape)) [
    | inl e ↦ elim (Option-cases (escape_key paste (c ∷ cs))) [
      | inl f ↦ inr (rw (e, f) refl)
      | inr (r, f) ↦ inl (rw (e, f) (escape_key-Takes paste (c ∷ cs) (r.1) (r.0) f))
    ]
    | inr e ↦ elim (Bool-cases (full_rune (c ∷ cs))) [
      | inl f ↦ inl (rw (e, f) (drop-Takes (c ∷ cs) (decode_rune (c ∷ cs)).1 (d.0) (d.1)))
      | inr f ↦ inr (rw (e, f) refl)
    ]
  ]

  -- `bytesToKey` either takes at least one byte from the front of the input and leaves the bytes
  -- after those it took, or it reads no key (`utf8.RuneError`) and leaves the input as it is, if
  -- `utf8.DecodeRune` says of an input that is not empty that its first rune has at least one byte
  -- and no more than there are.
  pub bytes_to_key-progress :
      (b : List ℕ) (paste : Bool)
      → (b ≢ [] → ((1 ≤ (decode_rune b).1) × ((decode_rune b).1 ≤ length b)))
      → let r = bytes_to_key full_rune decode_rune b paste in Takes b r.1 ⊎ (r ≡ (rune_error, b))
  unfolding bytes_to_key
  bytes_to_key-progress [] paste d = inr refl
  bytes_to_key-progress (c ∷ cs) true d = sequence_key-progress true c cs (d (λ h. ground arith))
  bytes_to_key-progress (c ∷ cs) false d = elim (Option-cases (control_key c)) [
    | inl e ↦ rw (e, bytes_to_key) (sequence_key-progress false c cs (d (λ h. ground arith)))
    | inr (k, e) ↦ inl (rw (e, bytes_to_key) (record { first = c; others = []; splits = refl }))
  ]
