-- ===== src/Sanitize/Tests.antt =====
-- Names and client data, and the theorems of this component at them.
use ssh_chat.Prelude.{◌≤◌, ◌≡◌, refl, codes, length}
use ssh_chat.Sanitize.{name, name_byte, All, name_clean}

cleaned : name (codes "<b>a really-long name</b>") ≡ codes "bareally-longnam"
unfolding name
cleaned = refl

name_clean_example :
    (length (name (codes "no spaces!")) ≤ 16)
    × All name_byte (name (codes "no spaces!"))
    × (name (name (codes "no spaces!")) ≡ name (codes "no spaces!"))
name_clean_example = name_clean (codes "no spaces!")
