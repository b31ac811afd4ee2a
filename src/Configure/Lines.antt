-- ===== src/Configure/Lines.antt =====
-- What Load of src/Configure.cc makes of the lines of a file.
use libsimplesvr.Base.{
  append_nil, ℕ, ◌≡◌, ◌≢◌, inl, inr, refl, sym, ap, ap₂, ◌∙◌, true, false, ◌&&◌, not, Option, some,
  none, List, [], ◌∷◌, ◌++◌, map, All, ◌==◌, if◌then◌else◌, arith, Bool-cases, Option-cases,
}
use libsimplesvr.Configure.{
  Text, Boost, Settings, Reading, comment_expression, text_eq, insert, what, is_empty, enter_block,
  get_block, set_value, read_line, read_lines,
}
use libsimplesvr.Configure.Laws.{
  is_space, is_word, IsWhite, Lacks, starts_white, ends_white, IsTrimmed, IsComment, IsBoost,
}

-- What a line says: nothing, "[name]", or "key = value" with white space at the equals sign.
pub data Body : Type 0 where
  blank : Body
  block : ℕ → Text → Body
  setting : ℕ → Text → Text → Text → Text → Body

pub record Line : Type 0 where
  pub front : Text
  pub body : Body
  pub back : Text
  pub comment : Text

unfoldable pub body_text : Body → Text
body_text blank = []
body_text (block c name) = 91 ∷ c ∷ name ++ (93 ∷ [])
body_text (setting c key gap after val) = c ∷ (key ++ gap) ++ (61 ∷ after ++ val)

unfoldable pub code_text : Line → Text
code_text l = l.front ++ (body_text l.body ++ l.back)

unfoldable pub line_text : Line → Text
line_text l = code_text l ++ l.comment

abbrev pub IsBody : Body → Type 0
IsBody blank = Unit
IsBody (block c name) = All (λ d. is_word d ≡ true) (c ∷ name)
IsBody (setting c key gap after val) =
    (c ≢ 91)
    × Lacks 61 (c ∷ key ++ gap)
    × Lacks 10 (after ++ val)
    × IsWhite gap
    × IsWhite after
    × IsTrimmed (c ∷ key)
    × IsTrimmed val
    × IsTrimmed (body_text (setting c key gap after val))

-- A line in the format, without a line feed.
pub record IsLine (l : Line) : Type 0 where
  pub body_ok : IsBody l.body
  pub front_white : IsWhite l.front
  pub back_white : IsWhite l.back
  pub no_hash : Lacks 35 (code_text l)
  pub no_feed : Lacks 10 (code_text l)
  pub no_text_feed : Lacks 10 (line_text l)
  pub comment_ok : IsComment l.comment

-- The value of a key in a block.
unfoldable pub value : Settings → Text → Text → Option Text
value config name key = elim (config name) [ none ↦ none | some b ↦ b key ]

unfoldable pub or_else : Option Text → Option Text → Option Text
or_else none o = o
or_else (some v) o = some v

-- What a line of a block `current` and `rest`, the lines behind it, give to a key of a block.
unfoldable pub said : Body → Text → (Text → Option Text) → Text → Text → Option Text
said blank current rest name key = rest current
said (block c new) current rest name key = rest (c ∷ new)
said (setting c k gap after val) current rest name key = or_else (rest current) (
    if not (is_empty current) && (text_eq current name && text_eq (c ∷ k) key)
    then some val
    else none)

-- The last value that lines give to a key of a block.
unfoldable pub says : Text → List Line → Text → Text → Option Text
says current [] name key = none
says current (l ∷ ls) name key = said l.body current (λ c. says c ls name key) name key

text_eq→≡ : (a b : Text) → text_eq a b ≡ true → a ≡ b
unfolding text_eq
text_eq→≡ [] [] h = refl
text_eq→≡ [] (y ∷ ys) h = ground (arith, h)
text_eq→≡ (x ∷ xs) [] h = ground (arith, h)
text_eq→≡ (x ∷ xs) (y ∷ ys) h = elim (Bool-cases (x == y)) [
  | inl t ↦
      ap₂ ◌∷◌ (let e : x ≡ y = ground (arith, t) in e)
        (text_eq→≡ xs ys (sym (ap (λ q. q && text_eq xs ys) t) ∙ h))
  | inr t ↦ ground (arith, sym (ap (λ q. q && text_eq xs ys) t) ∙ h)
]

-- A block that was not there has no values, nor has it when it is entered.
value-enter_block :
    (new name key : Text) (r : Reading)
    → value (enter_block new r).config name key ≡ value r.config name key
unfolding value enter_block
value-enter_block new name key r = elim (Option-cases (r.config new)) [
  | inl e ↦ elim (Bool-cases (text_eq new name)) [
    | inl t ↦
        let q = text_eq→≡ new name t in
        let e' : r.config name ≡ none = ap r.config (sym q) ∙ e in simp (e, t, e', value)
    | inr t ↦ simp (e, t, value)
  ]
  | inr (b, e) ↦ simp (e, value)
]

value-insert :
    (config : Settings) (current k val name key : Text)
    → value (insert config current (insert (get_block config current) k val)) name key
      ≡ or_else
          (if text_eq current name && text_eq k key then some val else none)
          (value config name key)
unfolding value get_block or_else
value-insert config current k val name key = elim (Bool-cases (text_eq current name)) [
  | inl t ↦
      let q = text_eq→≡ current name t in
      elim (Bool-cases (text_eq k key)) [
        | inl t' ↦ simp (t, t', value, or_else)
        | inr t' ↦ elim (Option-cases (config name)) [
          | inl e ↦
              let e' : config current ≡ none = ap config q ∙ e in
              simp (t, t', e, e', value, get_block, or_else)
          | inr (b, e) ↦
              let e' : config current ≡ some b = ap config q ∙ e in
              simp (t, t', e, e', value, get_block, or_else)
        ]
      ]
  | inr t ↦ simp (t, value, or_else)
]

ends_white-append : (s : Text) → ends_white (s ++ (93 ∷ [])) ≡ false
unfolding ends_white is_space
ends_white-append [] = refl
ends_white-append (c ∷ []) = refl
ends_white-append (c ∷ d ∷ ds) = ends_white-append (d ∷ ds)

body_text-IsTrimmed : (b : Body) → IsBody b → IsTrimmed (body_text b)
unfolding body_text starts_white ends_white is_space
body_text-IsTrimmed blank h = (refl, refl)
body_text-IsTrimmed (block c name) h = (refl, ends_white-append (c ∷ name))
body_text-IsTrimmed (setting c key gap after val) h = h.7

module _ {boost : Boost} (laws : IsBoost boost) where
  trim_line :
      (l : Line)
      → IsLine l
      → boost.trim (boost.regex_replace comment_expression (line_text l)) ≡ body_text l.body
  unfolding line_text code_text
  trim_line l ok =
      ap boost.trim (laws.drops_comment (code_text l) l.comment ok.no_hash ok.no_feed ok.comment_ok)
      ∙ laws.trims l.front (body_text l.body) l.back ok.front_white ok.back_white
          (body_text-IsTrimmed l.body ok.body_ok)

  -- What a line does.
  abbrev effect : Body → Reading → Reading
  effect blank r = r
  effect (block c name) r = enter_block (c ∷ name) r
  effect (setting c key gap after val) r = if is_empty r.block_key then r else record r {
    config = insert r.config r.block_key (insert (get_block r.config r.block_key) (c ∷ key) val);
  }

  read_line_lem :
      (l : Line) → IsLine l → (r : Reading) → read_line boost (line_text l) r ≡ effect l.body r
  unfolding read_line body_text is_empty what set_value
  read_line_lem l ok r = go l.body ok.body_ok (trim_line l ok)
    where
      go :
          (b : Body)
          → IsBody b
          → boost.trim (boost.regex_replace comment_expression (line_text l)) ≡ body_text b
          → read_line boost (line_text l) r ≡ effect b r
      go blank h e = rw e refl
      go (block c name) h e = rw (e, laws.matches_block c name h) refl
      go (setting c key gap after val) h e =
          let k = laws.trims [] (c ∷ key) gap tt h.3 h.5 in
          let v : boost.trim (after ++ val) ≡ val =
            ap (λ s. boost.trim (after ++ s)) (sym (append_nil val))
            ∙ laws.trims after val [] h.4 tt h.6 in
          rw
            (
              e,
              laws.matches_no_block c ((key ++ gap) ++ (61 ∷ after ++ val)) h.0,
              e,
              laws.matches_key_val c (key ++ gap) (after ++ val) h.1 h.2,
              k,
              v,
            )
            refl

  or_else_assoc : (a b c : Option Text) → or_else a (or_else b c) ≡ or_else (or_else a b) c
  unfolding or_else
  or_else_assoc none b c = refl
  or_else_assoc (some a) b c = refl

  or_else-none : (a : Option Text) → or_else a none ≡ a
  unfolding or_else
  or_else-none none = refl
  or_else-none (some a) = refl

  -- A line before lines that do what `g` says.
  effect-said :
      (f : Reading → Reading) (g : Text → Option Text) (name key : Text)
      → ((r : Reading)
          → value (f r).config name key ≡ or_else (g r.block_key) (value r.config name key))
      → (b : Body) (r : Reading)
      → value (f (effect b r)).config name key
        ≡ or_else (said b r.block_key g name key) (value r.config name key)
  unfolding said enter_block
  effect-said f g name key rest blank r = rest r
  effect-said f g name key rest (block c new) r =
      rest (enter_block (c ∷ new) r)
      ∙ ap (or_else (g (c ∷ new))) (value-enter_block (c ∷ new) name key r)
  effect-said f g name key rest (setting c k gap after val) r =
      elim (Bool-cases (is_empty r.block_key)) [
        | inl t ↦ simp (t, or_else-none (g r.block_key), rest r)
        | inr t ↦
            let v = value-insert r.config r.block_key (c ∷ k) val name key in
            simp (t, rest _, v, or_else_assoc)
      ]

  pub read_lines-value :
      (ls : List Line)
      → All IsLine ls
      → (r : Reading) (name key : Text)
      → value (read_lines boost (map line_text ls) r).config name key
        ≡ or_else (says r.block_key ls name key) (value r.config name key)
  unfolding read_lines says or_else
  read_lines-value [] h r name key = refl
  read_lines-value (l ∷ ls) h r name key =
      ap (λ q. value (read_lines boost (map line_text ls) q).config name key)
        (read_line_lem l h.0 r)
      ∙ effect-said (read_lines boost (map line_text ls)) (λ c. says c ls name key) name key
          (λ r'. read_lines-value ls h.1 r' name key) l.body r
