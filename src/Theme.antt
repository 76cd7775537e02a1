-- ===== src/Theme.antt =====
-- chat/message/theme.go: the themes that messages are printed in. The functions that print themes
-- for debugging are left out.
pub mod Colors
mod Tests
use ssh_chat.Prelude.{
  ℕ, zero, suc, ◌+◌, ◌-◌, ◌%◌, Bool, true, false, ◌||◌, if◌then◌else◌, ◌==◌, ltb, Option, none,
  some, List, [], ◌∷◌, ◌++◌, map, length, get_elem?, Text, codes, decimal,
}

abbrev pub reset : Text
reset = codes "\u{1b}[0m"

abbrev pub bold : Text
bold = codes "\u{1b}[1m"

abbrev pub newline : Text
newline = 13 ∷ 10 ∷ []

abbrev pub bel : Text
bel = 7 ∷ []

-- The implementations of `Style`: `style`, `Color256` and `Color0`.
pub data Style : Type 0 where
  hardcoded : Text → Style
  color256 : ℕ → Style
  color0 : Style

unfoldable pub style_string : Style → Text
style_string (hardcoded s) = s
style_string (color256 c) = codes "38;05;" ++ decimal c
style_string color0 = []

unfoldable pub format : Style → Text → Text
unfolding style_string
format (hardcoded c) s = style_string (hardcoded c) ++ (s ++ reset)
format (color256 c) s =
    codes "\u{1b}[" ++ (style_string (color256 c) ++ (codes "m" ++ (s ++ reset)))
format color0 s = s

pub record Palette : Type 0 where
  pub colors : List Style
  pub size : ℕ

unfoldable pub color256_palette : List ℕ → Palette
color256_palette cs = record { colors = map color256 cs; size = length cs }

-- `Palette.Get`, with no color where the index is out of range, which panics.
unfoldable pub get : Palette → ℕ → Option Style
get p i = if p.size == 1 then get_elem? p.colors 0 else get_elem? p.colors (i % (p.size - 1))

unfoldable pub palette_string : List Style → Text
unfolding format
palette_string [] = []
palette_string (c ∷ cs) = format c (codes "X") ++ palette_string cs

pub record Theme : Type 0 where
  pub id : Text
  pub sys : Option Style
  pub pm : Option Style
  pub highlight : Option Style
  pub names : Option Palette
  pub use_id : Bool

-- The zero value of the type.
abbrev pub no_theme : Theme
no_theme = record { id = []; sys = none; pm = none; highlight = none; names = none; use_id = false }

abbrev styled : Option Style → Text → Text
styled none s = s
styled (some c) s = format c s

-- `ColorName` of a user with a name, an id and the index of a color. It has no text where `Get`
-- panics.
unfoldable pub color_name : Theme → Text → Text → ℕ → Option Text
unfolding get format
color_name theme name id color_idx =
    let shown : Text = if theme.use_id then id else name in
    elim theme.names [
      | none ↦ some shown
      | some palette ↦ elim (get palette color_idx) [ none ↦ none | some c ↦ some (format c shown) ]
    ]

unfoldable pub color_pm : Theme → Text → Text
unfolding format
color_pm theme s = styled theme.pm s

unfoldable pub color_sys : Theme → Text → Text
unfolding format
color_sys theme s = styled theme.sys s

unfoldable pub highlighted : Theme → Text → Text
unfolding format
highlighted theme s = styled theme.highlight s

unfoldable pub timestamp : Theme → Text → Text
unfolding format
timestamp theme s = styled theme.sys s

-- The numbers from `i` on, `n` of them.
unfoldable pub range : ℕ → ℕ → List ℕ
range i zero = []
range i (suc n) = i ∷ range (suc i) n

unfoldable pub all_colors256 : Palette
unfolding range color256_palette
all_colors256 = color256_palette (range 0 255)

abbrev pub is_skipped : ℕ → Bool
is_skipped i = i == 0 || i == 7 || i == 8 || i == 15 || i == 16 || i == 17 || ltb 230 i

unfoldable pub unskipped : List ℕ → List ℕ
unskipped [] = []
unskipped (i ∷ is) = let rest = unskipped is in if is_skipped i then rest else i ∷ rest

unfoldable pub readable_colors256 : Palette
unfolding range unskipped color256_palette
readable_colors256 = color256_palette (unskipped (range 0 255))

abbrev pub colors_theme : Theme
colors_theme = record {
  id = codes "colors";
  sys = some (color256 245);
  pm = some (color256 7);
  highlight = some (hardcoded (bold ++ codes "\u{1b}[48;5;11m\u{1b}[38;5;16m"));
  names = some readable_colors256;
  use_id = false;
}

abbrev pub solarized_theme : Theme
solarized_theme = record {
  id = codes "solarized";
  sys = some (color256 11);
  pm = some (color256 15);
  highlight = some (hardcoded (bold ++ codes "\u{1b}[48;5;3m\u{1b}[38;5;94m"));
  names = some (color256_palette (1 ∷ 2 ∷ 3 ∷ 4 ∷ 5 ∷ 6 ∷ 7 ∷ 9 ∷ 13 ∷ []));
  use_id = false;
}

abbrev pub hacker_theme : Theme
hacker_theme = record {
  id = codes "hacker";
  sys = some (color256 22);
  pm = some (color256 28);
  highlight = some (hardcoded (bold ++ codes "\u{1b}[48;5;22m\u{1b}[38;5;46m"));
  names = some (color256_palette (82 ∷ []));
  use_id = false;
}

abbrev pub mono_theme : Theme
mono_theme = record {
  id = codes "mono";
  sys = none;
  pm = none;
  highlight = none;
  names = none;
  use_id = true;
}

abbrev pub themes : List Theme
themes = colors_theme ∷ solarized_theme ∷ hacker_theme ∷ mono_theme ∷ []

abbrev pub default_theme : Theme
default_theme = colors_theme
