-- ===== src/Configure.antt =====
-- include/Configure.hpp and src/Configure.cc: the settings of a file in the format of INI.
--
-- boost's split, trim and regular expressions are a parameter, Boost; Configure/Laws has what the code
-- relies on. What open, fstat, malloc and read give for a file is an argument.
pub mod Laws
pub mod Lines
pub mod Loads
mod Matchers
mod Tests
use libsimplesvr.Base.{
  ℕ, zero, suc, Bool, true, false, ◌&&◌, Option, none, some, List, [], ◌∷◌, ◌==◌, if◌then◌else◌,
}
use libsimplesvr.Base.Int.{ℤ, pos, negsuc}
use libsimplesvr.IoBuffer.Buffer.{splice}

-- std::string.
abbrev pub Text : Type 0
Text = List ℕ

-- stBlockExpression, stKeyValExpression and stCommentExpression.
pub data Expression : Type 0 where
  block_expression key_val_expression comment_expression : Expression

-- split at one character, trim, regex_replace by nothing, and regex_match with what[1], what[2], ...
pub record Boost : Type 0 where
  pub split : ℕ → Text → List Text
  pub trim : Text → Text
  pub regex_replace : Expression → Text → Text
  pub regex_match : Expression → Text → Option (List Text)

-- std::map, with the keys that it does not have as none.
abbrev pub Map : Type 0 → Type 0
Map V = Text → Option V

unfoldable pub text_eq : Text → Text → Bool
text_eq [] [] = true
text_eq (x ∷ xs) (y ∷ ys) = x == y && text_eq xs ys
text_eq xs ys = false

abbrev pub insert : {V : Type 0} → Map V → Text → V → Map V
insert m k v j = if text_eq k j then some v else m j

abbrev pub no_settings : Map Text
no_settings k = none

abbrev pub Settings : Type 0
Settings = Map (Map Text)

-- What the calls give: st_size, the allocation, and the bytes that read stores.
pub record Opened : Type 0 where
  pub opens : Bool
  pub st_size : Option ℕ
  pub malloc : Option (List ℕ)
  pub read : Option (List ℕ)

-- std::string(const char*).
unfoldable pub c_string : List ℕ → Text
c_string [] = []
c_string (c ∷ cs) = let rest = c_string cs in if c == 0 then [] else c ∷ rest

-- lpConfigBuffer after read, with the 0 at st_size.
unfoldable pub config_content : ℕ → List ℕ → List ℕ → Text
config_content size buffer bytes = c_string (splice size (0 ∷ []) (splice 0 bytes buffer))

unfoldable pub read_content : Opened → Option Text
read_content f =
    if f.opens
    then elim f.st_size [
      | none ↦ none
      | some size ↦ elim f.malloc [
        | none ↦ none
        | some buffer ↦ elim f.read [
          | none ↦ none
          | some bytes ↦ some (config_content size buffer bytes)
        ]
      ]
    ]
    else none

-- what[n + 1], which is empty where there is none.
unfoldable pub what : ℕ → List Text → Text
what n [] = []
what zero (w ∷ ws) = w
what (suc n) (w ∷ ws) = what n ws

-- sBlockKey and the map.
pub record Reading : Type 0 where
  pub block_key : Text
  pub config : Settings

unfoldable pub is_empty : Text → Bool
is_empty [] = true
is_empty (c ∷ cs) = false

unfoldable pub enter_block : Text → Reading → Reading
enter_block key r = record {
  block_key = key;
  config = elim (r.config key) [ none ↦ insert r.config key no_settings | some b ↦ r.config ];
}

-- operator[] makes an empty block where there is none.
unfoldable pub get_block : Settings → Text → Map Text
get_block config key = elim (config key) [ none ↦ no_settings | some b ↦ b ]

unfoldable pub set_value : Boost → Text → Text → Reading → Reading
set_value boost key val r = record r {
  config =
      insert r.config r.block_key
        (insert (get_block r.config r.block_key) (boost.trim key) (boost.trim val));
}

-- The body of BOOST_FOREACH.
unfoldable pub read_line : Boost → Text → Reading → Reading
read_line boost line r =
    let s = boost.trim (boost.regex_replace comment_expression line) in
    if is_empty s then r else elim (boost.regex_match block_expression s) [
      | some w ↦ enter_block (what 0 w) r
      | none ↦ elim (boost.regex_match key_val_expression s) [
        | some w ↦ if is_empty r.block_key then r else set_value boost (what 0 w) (what 1 w) r
        | none ↦ r
      ]
    ]

unfoldable pub read_lines : Boost → List Text → Reading → Reading
read_lines boost [] r = r
read_lines boost (line ∷ lines) r = read_lines boost lines (read_line boost line r)

-- ReadINIFile.
unfoldable pub read_ini_file : Boost → Opened → Settings → ℤ × Settings
read_ini_file boost f config = elim (read_content f) [
  | none ↦ (negsuc 0, config)
  | some content ↦ (
    pos 0,
    (read_lines boost (boost.split 10 content) (record { block_key = []; config = config })).config,
  )
]

pub record Configure : Type 0 where
  pub config_file : Text
  pub config_map : Settings

-- Load, Reload and Get, where `files` says what the calls give for a path.
unfoldable pub load : Boost → (Text → Opened) → Text → Configure → ℤ × Configure
load boost files file c =
    let r = read_ini_file boost (files file) c.config_map in
    (r.0, record { config_file = file; config_map = r.1 })

unfoldable pub reload : Boost → (Text → Opened) → Configure → ℤ × Configure
reload boost files c = load boost files c.config_file c

unfoldable pub get : Text → Configure → Map Text × Configure
get name c =
    let b = get_block c.config_map name in (b, record c { config_map = insert c.config_map name b })
