-- ===== src/Strings.antt =====
-- What the program uses of Go's package strings, on ASCII text: TrimSpace, ToLower, and Split at a
-- separator of one byte or of two.
use distri_inference_sidecar.Prelude.{
  ℕ, ◌+◌, Bool, true, false, ◌&&◌, ◌||◌, List, [], ◌∷◌, map, Bytes, ◌==◌, leb, if◌then◌else◌,
}

-- unicode.IsSpace below 128: tab, newline, vertical tab, form feed, carriage return and space.
unfoldable pub is_space : ℕ → Bool
is_space c = (leb 9 c && leb c 13) || c == 32

unfoldable pub trim_left : Bytes → Bytes
unfolding is_space
trim_left [] = []
trim_left (c ∷ cs) = let rest = trim_left cs in if is_space c then rest else c ∷ cs

-- A byte is dropped if it is a space and nothing behind it is kept.
abbrev pub trim_byte : ℕ → Bytes → Bytes
trim_byte c [] = if is_space c then [] else c ∷ []
trim_byte c (k ∷ ks) = c ∷ k ∷ ks

unfoldable pub trim_right : Bytes → Bytes
unfolding is_space
trim_right [] = []
trim_right (c ∷ cs) = trim_byte c (trim_right cs)

unfoldable pub trim_space : Bytes → Bytes
unfolding trim_left trim_right
trim_space s = trim_right (trim_left s)

unfoldable pub to_lower : Bytes → Bytes
to_lower = map (λ c. if leb 65 c && leb c 90 then c + 32 else c)

-- One more byte in front of the first piece.
abbrev pub prepend : ℕ → List Bytes → List Bytes
prepend c [] = (c ∷ []) ∷ []
prepend c (p ∷ ps) = (c ∷ p) ∷ ps

unfoldable pub split_byte : ℕ → Bytes → List Bytes
split_byte sep [] = [] ∷ []
split_byte sep (c ∷ cs) =
    let rest = split_byte sep cs in if c == sep then [] ∷ rest else prepend c rest

unfoldable pub split_pair : ℕ → ℕ → Bytes → List Bytes
split_pair a b [] = [] ∷ []
split_pair a b (x ∷ []) = (x ∷ []) ∷ []
split_pair a b (x ∷ y ∷ cs) = elim (x == a && y == b) [
  | true ↦ [] ∷ split_pair a b cs
  | false ↦ prepend x (split_pair a b (y ∷ cs))
]
