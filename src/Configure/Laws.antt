-- ===== src/Configure/Laws.antt =====
-- What src/Configure.cc relies on of boost, and the lines of a file.
use libsimplesvr.Base.{
  ℕ, ◌≡◌, ◌≢◌, ◌⊎◌, Bool, true, false, ◌||◌, some, none, List, [], ◌∷◌, ◌++◌, All, ◌==◌, leb, ◌&&◌,
}
use libsimplesvr.Configure.{Text, Boost, block_expression, key_val_expression, comment_expression}

-- The characters that isspace takes, in the "C" locale.
unfoldable pub is_space : ℕ → Bool
is_space c = c == 32 || leb 9 c && leb c 13

-- [_a-zA-Z0-9].
unfoldable pub is_word : ℕ → Bool
is_word c = c == 95 || leb 97 c && leb c 122 || leb 65 c && leb c 90 || leb 48 c && leb c 57

abbrev pub IsWhite : Text → Type 0
IsWhite = All λ c. is_space c ≡ true

-- The text has none of a character.
abbrev pub Lacks : ℕ → Text → Type 0
Lacks c = All λ d. d ≢ c

-- The text starts and ends with no white space.
unfoldable pub starts_white : Text → Bool
starts_white [] = false
starts_white (c ∷ cs) = is_space c

unfoldable pub ends_white : Text → Bool
ends_white [] = false
ends_white (c ∷ []) = is_space c
ends_white (c ∷ d ∷ ds) = ends_white (d ∷ ds)

abbrev pub IsTrimmed : Text → Type 0
IsTrimmed s = (starts_white s ≡ false) × (ends_white s ≡ false)

-- A comment behind a line, or none.
abbrev pub IsComment : Text → Type 0
IsComment s = (s ≡ []) ⊎ ((t : Text) × (s ≡ 35 ∷ t) × Lacks 10 t)

-- Lines with a line feed between them.
unfoldable pub join : Text → List Text → Text
join line [] = line
join line (next ∷ lines) = line ++ (10 ∷ join next lines)

-- The documented behaviour of the functions of boost on the texts that a file in the format has.
pub record IsBoost (boost : Boost) : Type 0 where
  pub splits :
      (line : Text) (lines : List Text)
      → Lacks 10 line
      → All (Lacks 10) lines
      → boost.split 10 (join line lines) ≡ line ∷ lines
  pub trims :
      (before s after : Text)
      → IsWhite before
      → IsWhite after
      → IsTrimmed s
      → boost.trim (before ++ (s ++ after)) ≡ s
  pub drops_comment :
      (s comment : Text)
      → Lacks 35 s
      → Lacks 10 s
      → IsComment comment
      → boost.regex_replace comment_expression (s ++ comment) ≡ s
  pub matches_block :
      (c : ℕ) (name : Text)
      → All (λ d. is_word d ≡ true) (c ∷ name)
      → boost.regex_match block_expression (91 ∷ c ∷ name ++ (93 ∷ [])) ≡ some ((c ∷ name) ∷ [])
  pub matches_no_block :
      (c : ℕ) (s : Text) → c ≢ 91 → boost.regex_match block_expression (c ∷ s) ≡ none
  pub matches_key_val :
      (c : ℕ) (key val : Text)
      → Lacks 61 (c ∷ key)
      → Lacks 10 val
      → boost.regex_match key_val_expression (c ∷ key ++ (61 ∷ val)) ≡ some ((c ∷ key) ∷ val ∷ [])
