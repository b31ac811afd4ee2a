-- ===== src/Configure/Loads.antt =====
-- Load of src/Configure.cc reads a file in the format.
use libsimplesvr.Base.{
  ℕ, ◌+◌, ◌≡◌, refl, ap, ◌∙◌, true, false, some, List, [], ◌∷◌, ◌++◌, map, All, length, drop, ◌==◌,
  arith, take-append,
}
use libsimplesvr.Base.Int.{pos}
use libsimplesvr.IoBuffer.Buffer.{splice}
use libsimplesvr.Configure.{
  Text, Boost, Opened, Configure, c_string, config_content, read_content, read_ini_file, load,
}
use libsimplesvr.Configure.Laws.{Lacks, join, IsBoost}
use libsimplesvr.Configure.Lines.{Line, IsLine, line_text, value, or_else, says, read_lines-value}

-- The calls succeed for a file that holds a text without a 0.
pub record Holds (f : Opened) (content : Text) : Type 0 where
  pub buffer : List ℕ
  pub opened : f.opens ≡ true
  pub sized : f.st_size ≡ some (length content)
  pub allocated : f.malloc ≡ some buffer
  pub long : length buffer ≡ length content + 1
  pub got : f.read ≡ some content
  pub no_zero : Lacks 0 content

c_string-append : (s rest : Text) → Lacks 0 s → c_string (s ++ (0 ∷ rest)) ≡ s
unfolding c_string
c_string-append [] rest h = refl
c_string-append (c ∷ cs) rest h =
    let t : (c == 0) ≡ false = ground (arith, h.0) in
    rw t (ap (◌∷◌ c) (c_string-append cs rest h.1))

config_content_lem :
    (buffer content : Text)
    → Lacks 0 content
    → config_content (length content) buffer content ≡ content
unfolding config_content splice
config_content_lem buffer content h =
    let whole = content ++ drop (0 + length content) buffer in
    let t = take-append content (drop (0 + length content) buffer) in
    ap (λ s. c_string (s ++ ((0 ∷ []) ++ drop (length content + 1) whole))) t
    ∙ c_string-append content (drop (length content + 1) whole) h

read_content-Holds : (f : Opened) (content : Text) → Holds f content → read_content f ≡ some content
unfolding read_content
read_content-Holds f content h =
    rw (h.opened, h.sized, h.allocated, h.got)
      (ap some (config_content_lem h.buffer content h.no_zero))

lines_no_feed : (ls : List Line) → All IsLine ls → All (Lacks 10) (map line_text ls)
lines_no_feed [] h = tt
lines_no_feed (l ∷ ls) h = (h.0.no_text_feed, lines_no_feed ls h.1)

-- Load of a file whose lines are in the format, with boost and the calls as they are documented,
-- returns 0; a key of a block then has the last value that the lines give to it, and what it had
-- before where they give none.
pub load-value :
    {boost : Boost}
    → IsBoost boost
    → (files : Text → Opened) (file : Text) (c : Configure) (l : Line) (ls : List Line)
    → All IsLine (l ∷ ls)
    → Holds (files file) (join (line_text l) (map line_text ls))
    → ((load boost files file c).0 ≡ pos 0)
      × ((name key : Text)
          → value (load boost files file c).1.config_map name key
            ≡ or_else (says [] (l ∷ ls) name key) (value c.config_map name key))
unfolding load read_ini_file
load-value laws files file c l ls ok holds =
    let e = read_content-Holds (files file) (join (line_text l) (map line_text ls)) holds in
    let s =
      laws.splits (line_text l) (map line_text ls) ok.0.no_text_feed (lines_no_feed ls ok.1) in
    rw (load, read_ini_file, e, s)
      (
        refl,
        λ name key.
            read_lines-value laws (l ∷ ls) ok (record { block_key = []; config = c.config_map })
              name key,
      )
