-- ===== src/Configure/Matchers.antt =====
-- Functions that do what src/Configure.cc relies on of boost, for its expressions.
use libsimplesvr.Base.{
  ℕ, ◌≡◌, ◌≢◌, inl, inr, refl, sym, ap, ◌∙◌, true, false, ◌&&◌, Option, none, some, List, [], ◌∷◌,
  ◌++◌, All, ◌==◌, if◌then◌else◌, arith, Bool-cases, append_nil,
}
use libsimplesvr.Configure.{
  Text, Boost, Expression, block_expression, key_val_expression, comment_expression, is_empty,
}
use libsimplesvr.Configure.Laws.{
  is_space, is_word, IsWhite, Lacks, starts_white, ends_white, IsTrimmed, IsComment, join, IsBoost,
}

unfoldable pub push : ℕ → List Text → List Text
push c [] = (c ∷ []) ∷ []
push c (w ∷ ws) = (c ∷ w) ∷ ws

unfoldable pub split_at : ℕ → Text → List Text
split_at sep [] = [] ∷ []
split_at sep (c ∷ cs) = let rest = split_at sep cs in if c == sep then [] ∷ rest else push c rest

unfoldable pub trim_front : Text → Text
trim_front [] = []
trim_front (c ∷ cs) = let rest = trim_front cs in if is_space c then rest else c ∷ cs

unfoldable pub trim_back : Text → Text
trim_back [] = []
trim_back (c ∷ cs) = let rest = trim_back cs in if is_space c && is_empty rest then [] else c ∷ rest

unfoldable pub before_hash : Text → Text
before_hash [] = []
before_hash (c ∷ cs) = let rest = before_hash cs in if c == 35 then [] else c ∷ rest

-- Word characters, and then "]" at the end.
unfoldable pub match_name : Text → Option Text
match_name [] = none
match_name (c ∷ cs) =
    let rest = match_name cs in
    if is_word c
    then elim rest [ none ↦ none | some name ↦ some (c ∷ name) ]
    else if c == 93 && is_empty cs
    then some []
    else none

unfoldable pub match_block : Text → Option (List Text)
match_block [] = none
match_block (b ∷ s) =
    if b == 91
    then elim (match_name s) [
      | none ↦ none
      | some name ↦ if is_empty name then none else some (name ∷ [])
    ]
    else none

-- What is before the first "=" and behind it.
unfoldable pub match_key : Text → Option (List Text)
match_key [] = none
match_key (c ∷ cs) =
    let rest = match_key cs in
    if c == 61 then some ([] ∷ cs ∷ []) else elim rest [ none ↦ none | some ws ↦ some (push c ws) ]

unfoldable pub match_key_val : Text → Option (List Text)
match_key_val [] = none
match_key_val (c ∷ cs) = if c == 61 then none else match_key (c ∷ cs)

unfoldable pub replace : Expression → Text → Text
replace comment_expression s = before_hash s
replace e s = s

unfoldable pub match : Expression → Text → Option (List Text)
match block_expression s = match_block s
match key_val_expression s = match_key_val s
match comment_expression s = none

unfoldable pub matchers : Boost
matchers = record {
  split = split_at;
  trim = λ s. trim_back (trim_front s);
  regex_replace = replace;
  regex_match = match;
}

split_line :
    (line : Text) (s w : Text) (ws : List Text)
    → Lacks 10 line
    → split_at 10 s ≡ w ∷ ws
    → split_at 10 (line ++ s) ≡ (line ++ w) ∷ ws
unfolding split_at push
split_line [] s w ws h e = e
split_line (c ∷ cs) s w ws h e =
    let t : (c == 10) ≡ false = ground (arith, h.0) in rw (t, split_line cs s w ws h.1 e) refl

split_lines :
    (line : Text) (lines : List Text)
    → Lacks 10 line
    → All (Lacks 10) lines
    → split_at 10 (join line lines) ≡ line ∷ lines
unfolding join split_at
split_lines line [] h hs =
    ap (split_at 10) (sym (append_nil line))
    ∙ split_line line [] [] [] h refl
    ∙ ap (λ l. l ∷ []) (append_nil line)
split_lines line (next ∷ lines) h hs =
    split_line line (10 ∷ join next lines) [] (next ∷ lines) h
      (ap (λ ws. [] ∷ ws) (split_lines next lines hs.0 hs.1))
    ∙ ap (λ l. l ∷ next ∷ lines) (append_nil line)

trim_front-white : (before s : Text) → IsWhite before → trim_front (before ++ s) ≡ trim_front s
unfolding trim_front
trim_front-white [] s h = refl
trim_front-white (c ∷ cs) s h = rw (h.0) (trim_front-white cs s h.1)

trim_back-white : (after : Text) → IsWhite after → trim_back after ≡ []
unfolding trim_back is_empty
trim_back-white [] h = refl
trim_back-white (c ∷ cs) h = rw (h.0, trim_back-white cs h.1) refl

trim_back-append :
    (c : ℕ) (s after : Text)
    → ends_white (c ∷ s) ≡ false
    → IsWhite after
    → trim_back (c ∷ s ++ after) ≡ c ∷ s
unfolding trim_back is_empty ends_white
trim_back-append c [] after e h = rw (e, trim_back-white after h) refl
trim_back-append c (d ∷ ds) after e h = elim (Bool-cases (is_space c)) [
  | inl t ↦ rw (t, trim_back-append d ds after e h) refl
  | inr t ↦ rw (t, trim_back-append d ds after e h) refl
]

trim_lem :
    (before s after : Text)
    → IsWhite before
    → IsWhite after
    → IsTrimmed s
    → trim_back (trim_front (before ++ (s ++ after))) ≡ s
unfolding trim_front starts_white trim_back
trim_lem before [] after h h' t =
    ap trim_back (trim_front-white before after h)
    ∙ ap (λ s. trim_back (trim_front s)) (sym (append_nil after))
    ∙ ap trim_back (trim_front-white after [] h')
trim_lem before (c ∷ s) after h h' t =
    ap trim_back (trim_front-white before (c ∷ s ++ after) h)
    ∙ rw (t.0) (trim_back-append c s after t.1 h')

before_hash-append :
    (s comment : Text) → Lacks 35 s → IsComment comment → before_hash (s ++ comment) ≡ s
unfolding before_hash
before_hash-append [] comment h (inl e) = ap before_hash e
before_hash-append [] comment h (inr (t, e, l)) = ap before_hash e
before_hash-append (c ∷ cs) comment h k =
    let t : (c == 35) ≡ false = ground (arith, h.0) in
    rw t (ap (◌∷◌ c) (before_hash-append cs comment h.1 k))

match_name-append :
    (name : Text) → All (λ d. is_word d ≡ true) name → match_name (name ++ (93 ∷ [])) ≡ some name
unfolding match_name is_empty is_word
match_name-append [] h = refl
match_name-append (c ∷ cs) h = rw (h.0, match_name-append cs h.1) refl

match_key-append :
    (key val : Text) → Lacks 61 key → match_key (key ++ (61 ∷ val)) ≡ some (key ∷ val ∷ [])
unfolding match_key push
match_key-append [] val h = refl
match_key-append (c ∷ cs) val h =
    let t : (c == 61) ≡ false = ground (arith, h.0) in rw (t, match_key-append cs val h.1) refl

pub matchers-IsBoost : IsBoost matchers
unfolding matchers match match_block is_empty match_key_val replace before_hash
matchers-IsBoost = record {
  splits = split_lines;
  trims = trim_lem;
  drops_comment = λ s comment h h' k. before_hash-append s comment h k;
  matches_block = blocks;
  matches_no_block = no_blocks;
  matches_key_val = keys;
}
  where
    blocks :
        (c : ℕ) (name : Text)
        → All (λ d. is_word d ≡ true) (c ∷ name)
        → match block_expression (91 ∷ c ∷ name ++ (93 ∷ [])) ≡ some ((c ∷ name) ∷ [])
    blocks c name h = rw (match, match_block, match_name-append (c ∷ name) h, is_empty) refl

    no_blocks : (c : ℕ) (s : Text) → c ≢ 91 → match block_expression (c ∷ s) ≡ none
    no_blocks c s h =
        let t : (c == 91) ≡ false = ground (arith, h) in rw (match, match_block, t) refl

    keys :
        (c : ℕ) (key val : Text)
        → Lacks 61 (c ∷ key)
        → Lacks 10 val
        → match key_val_expression (c ∷ key ++ (61 ∷ val)) ≡ some ((c ∷ key) ∷ val ∷ [])
    keys c key val h h' =
        let t : (c == 61) ≡ false = ground (arith, h.0) in
        rw (match, match_key_val, t) (match_key-append (c ∷ key) val h)
