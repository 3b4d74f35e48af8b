-- ===== src/Text/Files.antt =====
-- Text files: the lines that a file gives when it is read, and the order of texts.
use custom_network_proxy_ser.Base.{
  ℕ, Bool, true, false, ◌&&◌, ◌||◌, List, [], ◌∷◌, ltb, ◌==◌, if◌then◌else◌,
}
use custom_network_proxy_ser.Text.{Text}

-- Universal newlines: `\r\n` and `\r` are read as `\n`.
unfoldable pub translate : Text → Text
translate [] = []
translate (c ∷ []) = (if c == 13 then 10 else c) ∷ []
translate (c ∷ d ∷ s) = elim (c == 13 && d == 10) [
  | true ↦ 10 ∷ translate s
  | false ↦ (if c == 13 then 10 else c) ∷ translate (d ∷ s)
]

abbrev pub cons_head : ℕ → List Text → List Text
cons_head c [] = (c ∷ []) ∷ []
cons_head c (l ∷ ls) = (c ∷ l) ∷ ls

-- The lines, without their terminators.
unfoldable pub cut_lines : Text → List Text
cut_lines [] = []
cut_lines (c ∷ s) = let rest = cut_lines s in if c == 10 then [] ∷ rest else cons_head c rest

-- `for line in f`, up to the newline that ends each line
unfoldable pub lines_of : Text → List Text
unfolding translate cut_lines
lines_of content = cut_lines (translate content)

-- `s < t`
unfoldable pub before : Text → Text → Bool
before s [] = false
before [] (d ∷ t) = true
before (c ∷ s) (d ∷ t) = ltb c d || (c == d && before s t)
