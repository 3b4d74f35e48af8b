-- ===== src/Text/Lines.antt =====
-- The lines of a text file that was written line by line.
use custom_network_proxy_ser.Base.{◌≡◌, refl, arith, false, [], ◌∷◌, ◌++◌, ◌==◌}
use custom_network_proxy_ser.Text.{Text, has_char}
use custom_network_proxy_ser.Text.Files.{translate, cut_lines}

pub translate_id : (s : Text) → has_char 13 s ≡ false → translate s ≡ s
unfolding has_char translate
translate_id [] h = refl
translate_id (c ∷ []) h = ground (arith, h)
translate_id (c ∷ d ∷ s) h = ground (arith, h, translate_id (d ∷ s))

pub cut_lines-append :
    (line rest : Text)
    → has_char 10 line ≡ false
    → cut_lines (line ++ 10 ∷ rest) ≡ line ∷ cut_lines rest
unfolding has_char cut_lines
cut_lines-append [] rest h = refl
cut_lines-append (c ∷ line) rest h =
    let other : (c == 10) ≡ false = ground (arith, h) in
    rw (other, cut_lines-append line rest (ground (arith, h))) refl

-- A line feed is no carriage return.
pub no_cr_after : (s : Text) → has_char 13 (10 ∷ s) ≡ has_char 13 s
unfolding has_char
no_cr_after s = refl
