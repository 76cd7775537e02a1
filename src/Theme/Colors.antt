-- ===== src/Theme/Colors.antt =====
-- Which colors names get from the palettes of chat/message/theme.go.
use ssh_chat.Prelude.{
  ℕ, zero, suc, ◌+◌, ◌-◌, ◌%◌, ◌<◌, ◌≤◌, ◌≡◌, ◌≢◌, refl, sym, ap, ◌∙◌, inl, inr, Option-cases, none,
  some, List, [], ◌∷◌, ◌++◌, map, length, length-append, get_elem?, Text, In, arith,
}
use ssh_chat.Theme.{
  Style, color256, Palette, Theme, color256_palette, get, color_name, range, unskipped,
  readable_colors256, themes,
}

get_elem?-append :
    {A : Type 0} (xs ys : List A) (i : ℕ) → i < length xs → get_elem? (xs ++ ys) i ≡ get_elem? xs i
get_elem?-append [] ys i h = elim h [ ]
get_elem?-append (x ∷ xs) ys zero h = refl
get_elem?-append (x ∷ xs) ys (suc i) h = get_elem?-append xs ys i (omega arith)

get_elem?-found :
    {A : Type 0} (xs : List A) (i : ℕ) → i < length xs → (x : A) × (get_elem? xs i ≡ some x)
get_elem?-found [] i h = elim h [ ]
get_elem?-found (x ∷ xs) zero h = (x, refl)
get_elem?-found (x ∷ xs) (suc i) h = get_elem?-found xs i (omega arith)

map-append_one :
    (cs : List ℕ) (c : ℕ) → map color256 (cs ++ c ∷ []) ≡ map color256 cs ++ color256 c ∷ []
map-append_one [] c = refl
map-append_one (x ∷ cs) c = ap (◌∷◌ (color256 x)) (map-append_one cs c)

length-map : (cs : List ℕ) → length (map color256 cs) ≡ length cs
length-map [] = refl
length-map (x ∷ cs) = ap suc (length-map cs)

mod_less : (i n : ℕ) → 0 < n → i % n < n
mod_less i n h = ground arith

get_large : (p : Palette) (i : ℕ) → 2 ≤ p.size → get p i ≡ get_elem? p.colors (i % (p.size - 1))
unfolding get
get_large p i h = ground (arith, h)

get_one : (p : Palette) (i : ℕ) → p.size ≡ 1 → get p i ≡ get_elem? p.colors 0
unfolding get
get_one p i h = ground (arith, h)

-- A palette of at least two colors gives every index one of its colors but the last: the colors
-- before the last one in turn.
pub get-before_last :
    (x : ℕ) (cs : List ℕ) (c i : ℕ)
    → let before = x ∷ cs in
      get (color256_palette (before ++ c ∷ [])) i
      ≡ get_elem? (map color256 before) (i % length before)
unfolding color256_palette
get-before_last x cs c i =
    let before = x ∷ cs in
    let n : length (before ++ c ∷ []) ≡ length before + 1 = length-append before (c ∷ []) in
    let less : i % length before < length before = mod_less i (length before) (omega arith) in
    let same : length (before ++ c ∷ []) - 1 ≡ length before = omega (arith, n) in
    get_large (color256_palette (before ++ c ∷ [])) i (omega (arith, n))
    ∙ ap (λ (j : ℕ). get_elem? (map color256 (before ++ c ∷ [])) (i % j)) same
    ∙ ap (λ (l : List Style). get_elem? l (i % length before)) (map-append_one before c)
    ∙ get_elem?-append (map color256 before) (color256 c ∷ []) (i % length before)
        (omega (arith, less, length-map before))

get_total : (cs : List ℕ) (i : ℕ) → 0 < length cs → get (color256_palette cs) i ≢ none
unfolding color256_palette
get_total [] i h = elim h [ ]
get_total (x ∷ []) i h = λ e. ground (arith, get_one (color256_palette (x ∷ [])) i refl, e)
get_total (x ∷ y ∷ cs) i h =
    let m = length (y ∷ cs) in
    let less : i % m < m = mod_less i m (omega arith) in
    let found =
      get_elem?-found (map color256 (x ∷ y ∷ cs)) (i % m) (omega (arith, less, length-map cs)) in
    let same : length (x ∷ y ∷ cs) - 1 ≡ m = omega arith in
    λ e. ground (arith, found.1, e, get_large (color256_palette (x ∷ y ∷ cs)) i (omega arith), same)

color_name_plain :
    (theme : Theme) (name id : Text) (i : ℕ)
    → theme.names ≡ none
    → color_name theme name id i ≢ none
unfolding color_name
color_name_plain theme name id i h e = ground (arith, h, e)

color_name_colored :
    (theme : Theme) (p : Palette) (name id : Text) (i : ℕ)
    → theme.names ≡ some p
    → get p i ≢ none
    → color_name theme name id i ≢ none
unfolding color_name
color_name_colored theme p name id i h g e = elim (Option-cases (get p i)) [
  | inl none_found ↦ g none_found
  | inr (c, found) ↦ ground (arith, h, e, found)
]

-- Every theme of the program has a color for every name: `ColorName` never panics.
pub color_name_total :
    (theme : Theme)
    → In theme themes
    → (name id : Text) (color_idx : ℕ) → color_name theme name id color_idx ≢ none
unfolding readable_colors256 range unskipped
color_name_total theme (inl h) name id i =
    color_name_colored theme _ name id i (ap (λ (t : Theme). t.names) (sym h))
      (get_total (unskipped (range 0 255)) i (omega arith))
color_name_total theme (inr (inl h)) name id i =
    color_name_colored theme _ name id i (ap (λ (t : Theme). t.names) (sym h))
      (get_total (1 ∷ 2 ∷ 3 ∷ 4 ∷ 5 ∷ 6 ∷ 7 ∷ 9 ∷ 13 ∷ []) i (omega arith))
color_name_total theme (inr (inr (inl h))) name id i =
    color_name_colored theme _ name id i (ap (λ (t : Theme). t.names) (sym h))
      (get_total (82 ∷ []) i (omega arith))
color_name_total theme (inr (inr (inr (inl h)))) name id i =
    color_name_plain theme name id i (ap (λ (t : Theme). t.names) (sym h))
color_name_total theme (inr (inr (inr (inr h)))) name id i = elim h [ ]
