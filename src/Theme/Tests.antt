-- ===== src/Theme/Tests.antt =====
-- A name in colors.
use ssh_chat.Prelude.{◌≡◌, refl, some, codes}
use ssh_chat.Theme.{color256_palette, get, format, style_string, color_name, hacker_theme}

green :
    color_name hacker_theme (codes "ann") (codes "id") 7
    ≡ some (codes "\u{1b}[38;05;82mann\u{1b}[0m")
unfolding color_name get color256_palette format style_string ssh_chat.Prelude.decimal
green = refl
