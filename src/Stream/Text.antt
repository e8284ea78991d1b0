-- ===== src/Stream/Text.antt =====
-- Texts as lists of code points, with what Go's strings and bufio do to them.
use Prim.Native.Char.{code}
use l1_modular_blockchain.Common.{
  ℕ, String, Bool, true, false, ◌&&◌, ◌||◌, Option, none, some, List, [], ◌∷◌, ◌++◌, leb, ◌==◌,
  if◌then◌else◌,
}

abbrev pub Text : Type 0
Text = List ℕ

abbrev pub newline : ℕ
newline = 10

abbrev pub carriage_return : ℕ
carriage_return = 13

unfoldable pub codes : String → Text
codes String.[] = []
codes (String.◌∷◌ c s) = code c ∷ codes s

-- `unicode.IsSpace`
abbrev pub is_space : ℕ → Bool
is_space c =
    leb 9 c && leb c 13
    || c == 32
    || c == 133
    || c == 160
    || c == 5760
    || leb 8192 c && leb c 8202
    || c == 8232
    || c == 8233
    || c == 8239
    || c == 8287
    || c == 12288

-- `TrimLeftFunc` and `TrimRightFunc`
abbrev pub trim_left : (ℕ → Bool) → Text → Text
trim_left p [] = []
trim_left p (c ∷ cs) = if p c then trim_left p cs else c ∷ cs

abbrev pub kept_before : (ℕ → Bool) → ℕ → Text → Text
kept_before p c [] = if p c then [] else c ∷ []
kept_before p c (d ∷ ds) = c ∷ d ∷ ds

abbrev pub trim_right : (ℕ → Bool) → Text → Text
trim_right p [] = []
trim_right p (c ∷ cs) = kept_before p c (trim_right p cs)

-- `strings.TrimSpace`, and `strings.TrimRight(line, "\r\n")`
abbrev pub trim_space : Text → Text
trim_space s = trim_right is_space (trim_left is_space s)

abbrev pub is_line_end : ℕ → Bool
is_line_end c = c == newline || c == carriage_return

abbrev pub trim_line : Text → Text
trim_line = trim_right is_line_end

-- `strings.HasPrefix` with `strings.TrimPrefix`
abbrev pub after_prefix : Text → Text → Option Text
after_prefix [] s = some s
after_prefix (c ∷ p) [] = none
after_prefix (c ∷ p) (d ∷ s) = if c == d then after_prefix p s else none

-- Texts that are equal.
abbrev pub same_text : Text → Text → Bool
same_text [] [] = true
same_text (c ∷ cs) (d ∷ ds) = c == d && same_text cs ds
same_text _ _ = false

-- `strings.Split` at one character, from the characters that are read of a piece.
abbrev pub split_from : ℕ → Text → Text → List Text
split_from sep piece [] = piece ∷ []
split_from sep piece (c ∷ cs) =
    let rest = split_from sep [] cs in
    let more = split_from sep (piece ++ c ∷ []) cs in if c == sep then piece ∷ rest else more

-- The lines that `ReadString('\n')` gives. Past the last newline it fails, and what is left is lost.
abbrev pub lines_from : Text → Text → List Text
lines_from line [] = []
lines_from line (c ∷ cs) =
    let rest = lines_from [] cs in
    let more = lines_from (line ++ c ∷ []) cs in
    if c == newline then (line ++ newline ∷ []) ∷ rest else more
