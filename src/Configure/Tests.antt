-- ===== src/Configure/Tests.antt =====
-- A file of two blocks for src/Configure.cc.
use libsimplesvr.Base.{
  ℕ, ◌≡◌, ◌≢◌, refl, sym, ap, ◌∙◌, inl, inr, some, none, List, [], ◌∷◌, map, All, Bool, true, false,
  if◌then◌else◌, ◌==◌, arith, Bool-cases,
}
use libsimplesvr.Base.Int.{pos}
use libsimplesvr.Configure.{
  Text, Opened, Configure, load, read_ini_file, read_content, read_lines, config_content, c_string,
  read_line, is_empty, enter_block, get_block, set_value, text_eq, what,
}
use libsimplesvr.Configure.Laws.{
  IsWhite, IsComment, Lacks, join, is_space, is_word, starts_white, ends_white,
}
use libsimplesvr.Configure.Lines.{
  Line, IsBody, IsLine, block, setting, body_text, code_text, line_text, value, or_else, says,
}
use libsimplesvr.Configure.Loads.{Holds, load-value}
use libsimplesvr.Configure.Matchers.{
  matchers, matchers-IsBoost, split_at, push, trim_back, trim_front, replace, before_hash, match,
  match_block, match_key, match_key_val, match_name,
}
use libsimplesvr.IoBuffer.Buffer.{splice}

-- "[a] ", "x = 1#c", "[b]" and "x=2".
abbrev first_line : Line
first_line = record { front = []; body = block 97 []; back = 32 ∷ []; comment = [] }

abbrev more_lines : List Line
more_lines =
    record {
      front = [];
      body = setting 120 [] (32 ∷ []) (32 ∷ []) (49 ∷ []);
      back = [];
      comment = 35 ∷ 99 ∷ [];
    }
    ∷ record { front = 9 ∷ []; body = block 98 []; back = []; comment = [] }
    ∷ record { front = []; body = setting 120 [] [] [] (50 ∷ []); back = []; comment = [] }
    ∷ []

abbrev content : Text
content =
    91 ∷ 97 ∷ 93 ∷ 32 ∷ 10 ∷ 120 ∷ 32 ∷ 61 ∷ 32 ∷ 49 ∷ 35 ∷ 99 ∷ 10 ∷ 9 ∷ 91 ∷ 98 ∷ 93 ∷ 10 ∷ 120
    ∷ 61 ∷ 50 ∷ []

abbrev files : Text → Opened
files path = record {
  opens = true;
  st_size = some 21;
  malloc = some (7 ∷ content);
  read = some content;
}

abbrev no_configure : Configure
no_configure = record { config_file = []; config_map = λ name. none }

content_lem : join (line_text first_line) (map line_text more_lines) ≡ content
unfolding join line_text code_text body_text
content_lem = refl

two_values :
    (value (load matchers files [] no_configure).1.config_map (97 ∷ []) (120 ∷ []) ≡ some (49 ∷ []))
    × (value (load matchers files [] no_configure).1.config_map (98 ∷ []) (120 ∷ [])
        ≡ some (50 ∷ []))
unfolding value load matchers read_ini_file read_content read_lines split_at config_content c_string
    splice push read_line is_empty trim_back trim_front replace before_hash is_space match
    match_block is_word match_key match_key_val match_name enter_block get_block set_value text_eq
    what
two_values = (refl, refl)

unfoldable none_of : ℕ → Text → Bool
none_of c [] = true
none_of c (d ∷ ds) = let rest = none_of c ds in if d == c then false else rest

none_of-Lacks : (c : ℕ) (s : Text) → none_of c s ≡ true → Lacks c s
unfolding none_of
none_of-Lacks c [] h = tt
none_of-Lacks c (d ∷ ds) h = elim (Bool-cases (d == c)) [
  | inl t ↦ absurd (ground (arith, h, t))
  | inr t ↦ (
    (let e : d ≢ c = ground (arith, t) in e),
    none_of-Lacks c ds (sym (ap (λ b. if b then false else none_of c ds) t) ∙ h),
  )
]

line_ok :
    (l : Line)
    → IsBody l.body
    → IsWhite l.front
    → IsWhite l.back
    → none_of 35 (code_text l) ≡ true
    → none_of 10 (code_text l) ≡ true
    → none_of 10 (line_text l) ≡ true
    → IsComment l.comment
    → IsLine l
line_ok l body front back hash feed text_feed comment = record {
  body_ok = body;
  front_white = front;
  back_white = back;
  no_hash = none_of-Lacks 35 (code_text l) hash;
  no_feed = none_of-Lacks 10 (code_text l) feed;
  no_text_feed = none_of-Lacks 10 (line_text l) text_feed;
  comment_ok = comment;
}

lines_ok : All IsLine (first_line ∷ more_lines)
unfolding is_space is_word starts_white ends_white line_text code_text body_text none_of
lines_ok = (
  line_ok _ (refl, tt) tt (refl, tt) refl refl refl (inl refl),
  (
    line_ok _
        (
          (λ e. omega (arith, e)),
          none_of-Lacks 61 (120 ∷ 32 ∷ []) refl,
          none_of-Lacks 10 (32 ∷ 49 ∷ []) refl,
          (refl, tt),
          (refl, tt),
          (refl, refl),
          (refl, refl),
          (refl, refl),
        )
        tt tt refl refl refl (inr (99 ∷ [], refl, none_of-Lacks 10 (99 ∷ []) refl)),
    (
      line_ok _ (refl, tt) (refl, tt) tt refl refl refl (inl refl),
      (
        line_ok _
            (
              (λ e. omega (arith, e)),
              none_of-Lacks 61 (120 ∷ []) refl,
              none_of-Lacks 10 (50 ∷ []) refl,
              tt,
              tt,
              (refl, refl),
              (refl, refl),
              (refl, refl),
            )
            tt tt refl refl refl (inl refl),
        tt,
      ),
    ),
  ),
)

holds : Holds (files []) (join (line_text first_line) (map line_text more_lines))
unfolding join line_text code_text body_text none_of
holds = record {
  buffer = 7 ∷ content;
  opened = refl;
  sized = refl;
  allocated = refl;
  long = refl;
  got = refl;
  no_zero = none_of-Lacks 0 content refl;
}

load-value_example :
    ((load matchers files [] no_configure).0 ≡ pos 0)
    × ((name key : Text)
        → value (load matchers files [] no_configure).1.config_map name key
          ≡ or_else
              (says [] (first_line ∷ more_lines) name key)
              (value no_configure.config_map name key))
load-value_example =
    load-value matchers-IsBoost files [] no_configure first_line more_lines lines_ok holds
