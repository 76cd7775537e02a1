-- ===== src/History/Recent.antt =====
-- The ring holds the last messages: a refinement to the list of all that was added.
use ssh_chat.Prelude.{
  ℕ, zero, suc, ◌+◌, ◌-◌, ◌%◌, ◌<◌, ◌≤◌, ◌≡◌, refl, ap, ◌∙◌, min, Bool-cases, inl, inr, leb→le, ltb,
  leb, if◌then◌else◌, Option, none, some, List, [], ◌∷◌, ◌++◌, map, reverse, length, take, drop,
  get_or, get_elem?, length-set, get_elem?-set_self, get_elem?-set_ne, length-replicate, arith,
}
use mathlib.Core.List.{reverse-cons, append_assoc, append-nil}
use native.Mathlib.Numerals.{add-one}
use native.Mathlib.Nat.{mod-eq_of_lt}
use ssh_chat.History.{History, new_history, add, index, get_loop, get, set_output}
use ssh_chat.History.Ring.{cell, cell-next, cell_ne, cell-zero, next-lt}

index-cell : (c h i : ℕ) → h < c → i < c → index c h i ≡ cell c h i
unfolding index
index-cell c h i p q = elim (Bool-cases (leb i h)) [
  | inl e ↦
      let le : i ≤ h = leb→le i h e in
      let small : (h - i) % c ≡ h - i = mod-eq_of_lt (omega arith) in rw (e, small) (ground arith)
  | inr e ↦
      let lt : h < i = ground arith in
      let small : (i - h) % c ≡ i - h = mod-eq_of_lt (omega arith) in rw (e, small) (ground arith)
]

module _ {M : Type 0} where
  -- The ring holds the newest messages of `sent`, which is newest first.
  pub record Holds (h : History M) (sent : List M) : Type 0 where
    pub head-lt : h.head < length h.entries
    pub counted : h.size ≡ min (length sent) (length h.entries)
    pub newest :
        (i : ℕ)
        → i < h.size
        → get_elem? h.entries (cell (length h.entries) h.head i) ≡ some (get_elem? sent i)

  pub new-Holds : (n : ℕ) → 0 < n → Holds (new_history n) []
  unfolding new_history
  new-Holds n p = record {
    head-lt = omega (arith, length-replicate {A = Option M} n none);
    counted = omega arith;
    newest = λ i q. elim q [ ];
  }

  add-newest :
      (h : History M) (sent : List M) (m : M)
      → Holds h sent
      → (i : ℕ) → i < (add h m).size
      → get_elem? (add h m).entries (cell (length (add h m).entries) (add h m).head i)
        ≡ some (get_elem? (m ∷ sent) i)
  unfolding add
  add-newest h sent m v zero q =
      rw (length-set, cell-zero)
        (get_elem?-set_self h.entries _ (some m) (next-lt (length h.entries) h.head v.head-lt))
  add-newest h sent m v (suc i) q =
      let c = length h.entries in
      let q' : suc i < c = ground (arith, v.counted) in
      rw (length-set, cell-next c h.head i v.head-lt q')
        (get_elem?-set_ne h.entries (some m) (cell_ne c h.head i v.head-lt q')
          ∙ v.newest i (ground (arith, v.counted)))

  pub add-Holds :
      (h : History M) (sent : List M) (m : M) → Holds h sent → Holds (add h m) (m ∷ sent)
  unfolding add
  add-Holds h sent m v = record {
    head-lt = rw length-set (next-lt _ _ v.head-lt);
    counted =
        ground (arith, length-set h.entries ((h.head + 1) % length h.entries) (some m), v.counted);
    newest = add-newest h sent m v;
  }

  -- The entries of `sent` from the `i`th newest on, `n` of them, oldest first, before `r`.
  back : List M → ℕ → ℕ → List (Option M) → List (Option M)
  back sent zero i r = r
  back sent (suc n) i r = back sent n (i + 1) (get_elem? sent i ∷ r)

  get_or-some :
      (xs : List (Option M)) (i : ℕ) (o : Option M) → get_elem? xs i ≡ some o → get_or xs i none ≡ o
  get_or-some [] i o e = cc
  get_or-some (x ∷ xs) zero o e = cc
  get_or-some (x ∷ xs) (suc i) o e = get_or-some xs i o e

  get_loop-back :
      (h : History M) (sent : List M)
      → Holds h sent
      → (n i : ℕ) (r : List (Option M)) → n + i ≤ h.size
      → get_loop h n i r ≡ back sent n i r
  unfolding get_loop back
  get_loop-back h sent v zero i r p = refl
  get_loop-back h sent v (suc n) i r p =
      let c = length h.entries in
      rw
        (
          index-cell c h.head i v.head-lt (omega (arith, v.counted)),
          get_or-some h.entries (cell c h.head i) (get_elem? sent i) (v.newest i (omega arith)),
        )
        (get_loop-back h sent v n (i + 1) (get_elem? sent i ∷ r) (omega arith))

  drop-cons :
      (sent : List M) (i : ℕ)
      → i < length sent
      → (x : M) × (get_elem? sent i ≡ some x) × (drop i sent ≡ x ∷ drop (suc i) sent)
  drop-cons [] i p = elim p [ ]
  drop-cons (x ∷ sent) zero p = (x, refl, refl)
  drop-cons (x ∷ sent) (suc i) p = drop-cons sent i (omega arith)

  back-take :
      (sent : List M) (n i : ℕ) (r : List (Option M))
      → n + i ≤ length sent
      → back sent n i r ≡ reverse (map some (take n (drop i sent))) ++ r
  unfolding back
  back-take sent zero i r p = refl
  back-take sent (suc n) i r p =
      let (x, at, rest) = drop-cons sent i (omega arith) in
      rw (at, rest)
        (back-take sent n (i + 1) (some x ∷ r) (omega arith)
          ∙ rw
              (reverse-cons (some x) (map some (take n (drop (suc i) sent))), append_assoc, add-one)
              refl)

  get-Holds :
      (h : History M) (sent : List M) (num : ℕ)
      → Holds h sent
      → get h num ≡ reverse (map some (take (min num (min (length sent) (length h.entries))) sent))
  unfolding get
  get-Holds h sent num v =
      let n = if ltb h.size num then h.size else num in
      let size : n ≡ min num (min (length sent) (length h.entries)) = ground (arith, v.counted) in
      get_loop-back h sent v n 0 [] (ground arith)
      ∙ back-take sent n 0 [] (ground (arith, v.counted))
      ∙ append-nil (reverse (map some (take n sent)))
      ∙ ap (λ k. reverse (map some (take k sent))) size

  -- A ring of `n` entries after any messages, `sent`, newest first.
  unfoldable pub add_all : History M → List M → History M
  add_all h [] = h
  add_all h (m ∷ ms) = add (add_all h ms) m

  add_all-Holds : (n : ℕ) (ms : List M) → 0 < n → Holds (add_all (new_history n) ms) ms
  unfolding add_all
  add_all-Holds n [] p = new-Holds n p
  add_all-Holds n (m ∷ ms) p = add-Holds (add_all (new_history n) ms) ms m (add_all-Holds n ms p)

  length-add_all : (n : ℕ) (ms : List M) → length (add_all (new_history n) ms).entries ≡ n
  unfolding add_all add new_history
  length-add_all n [] = length-replicate n none
  length-add_all n (m ∷ ms) = rw length-set (length-add_all n ms)

  -- After any messages `ms`, newest first, were added to a new history of `n` entries, `n` not 0,
  -- `Get` returns the newest of them, oldest first: as many as it is asked for, and at most `n`.
  pub get-add_all :
      (n num : ℕ) (ms : List M)
      → 0 < n
      → get (add_all (new_history n) ms) num
        ≡ reverse (map some (take (min num (min (length ms) n)) ms))
  get-add_all n num ms p =
      get-Holds (add_all (new_history n) ms) ms num (add_all-Holds n ms p)
      ∙ ap (λ c. reverse (map some (take (min num (min (length ms) c)) ms))) (length-add_all n ms)

  -- A writer that is set sees exactly the messages added after that, in the order of the calls.
  pub add_all-out :
      (h : History M) (ms : List M) → (add_all (set_output h) ms).out ≡ some (reverse ms)
  unfolding add_all add set_output
  add_all-out h [] = refl
  add_all-out h (m ∷ ms) = rw (add_all-out h ms, reverse-cons m ms)
