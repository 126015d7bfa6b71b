-- ===== src/Config/CliParser.antt =====
-- cli_config_parser.h: the arguments of the command line. The list holds argv from its second entry.
pub mod Print
use Prim.Native.Char.{code}
use Prim.Native.String.{String, ◌++◌ as concat}
use common_system.Prelude.{
  ℕ, zero, suc, Bool, true, false, ◌&&◌, ◌||◌, Option, none, some, List, [], ◌∷◌, ◌++◌, pos, ◌==◌,
  if◌then◌else◌,
}
use common_system.Result.Core.{Result, ok, err, plain_error, ErrorInfo}
use common_system.Utils.Enums.{codes, eqb_codes}

pub record ParsedArgs : Type 0 where
  pub config_path : String
  pub overrides : List (String × String)
  pub show_help : Bool
  pub show_version : Bool
  pub positional_args : List String

abbrev pub new_args : ParsedArgs
new_args = record {
  config_path = "";
  overrides = [];
  show_help = false;
  show_version = false;
  positional_args = [];
}

abbrev pub same_text : String → String → Bool
same_text s t = eqb_codes (codes s) (codes t)

abbrev pub starts_with : String → String → Bool
starts_with str String.[] = true
starts_with String.[] (String.◌∷◌ d prefix) = false
starts_with (String.◌∷◌ c str) (String.◌∷◌ d prefix) = (code c == code d) && starts_with str prefix

-- substr from a position that is not past the end.
abbrev pub substr : ℕ → String → String
substr zero str = str
substr (suc n) String.[] = String.[]
substr (suc n) (String.◌∷◌ c str) = substr n str

abbrev pub in_key : (String → String) → String × String → String × String
in_key f (key, value) = (f key, value)

-- What stands before and after the first '='.
unfoldable pub split_at_equals : String → Option (String × String)
split_at_equals String.[] = none
split_at_equals (String.◌∷◌ c str) =
    let rest = split_at_equals str in
    if code c == b'='
    then some (String.[], str)
    else elim rest [ none ↦ none | some kv ↦ some (in_key (String.◌∷◌ c) kv) ]

abbrev pub is_blank : ℕ → Bool
is_blank c = (c == b' ') || (c == b'\t')

unfoldable pub trim_left : String → String
trim_left String.[] = String.[]
trim_left (String.◌∷◌ c str) =
    let rest = trim_left str in if is_blank (code c) then rest else String.◌∷◌ c str

abbrev pub is_empty : String → Bool
is_empty String.[] = true
is_empty (String.◌∷◌ c str) = false

unfoldable pub trim_right : String → String
trim_right String.[] = String.[]
trim_right (String.◌∷◌ c str) =
    let rest = trim_right str in
    if is_blank (code c) && is_empty rest then String.[] else String.◌∷◌ c rest

module _ {A : Type 0} where
  abbrev pub failure : ℕ → String → Result A
  failure number message = err (plain_error (pos number) message "cli_config_parser")

abbrev pub trimmed : String × String → Result (String × String)
trimmed (key, value) =
    let short = trim_right (trim_left key) in
    if is_empty short then failure 2003 "Empty key in key=value pair" else ok (short, value)

unfoldable pub parse_key_value : String → Result (String × String)
unfolding split_at_equals trim_left trim_right
parse_key_value str = elim (split_at_equals str) [
  | none ↦ failure 2004 (concat "Invalid key=value format: " str)
  | some kv ↦ trimmed kv
]

-- The tests of the loop, in their order.
pub data Argument : Type 0 where
  help version config set unknown unknown_short positional : Argument
  config_equals set_equals : String → Argument

unfoldable pub classify : String → Argument
classify arg =
    if same_text arg "--help" || same_text arg "-h"
    then help
    else if same_text arg "--version" || same_text arg "-v"
    then version
    else if starts_with arg "--config="
    then config_equals (substr 9 arg)
    else if same_text arg "--config"
    then config
    else if starts_with arg "--set="
    then set_equals (substr 6 arg)
    else if same_text arg "--set"
    then set
    else if starts_with arg "--"
    then unknown
    else if starts_with arg "-"
    then unknown_short
    else positional

abbrev pub push_override :
    (ParsedArgs → Result ParsedArgs) → ParsedArgs → Result (String × String) → Result ParsedArgs
push_override next result kv = elim kv.error_ [
  | some e ↦ err e
  | none ↦ elim kv.value_ [
    | none ↦ next result
    | some pair ↦ next (record result { overrides = result.overrides ++ pair ∷ [] })
  ]
]

abbrev pub Rest : Type 0
Rest = ParsedArgs → Result ParsedArgs

-- The body of the loop: `next` goes on with the rest of the arguments, and `following` has the next
-- argument, where there is one, and goes on behind it.
abbrev pub parse_argument : String → Argument → Rest → Option (String × Rest) → Rest
parse_argument arg help next following result = next (record result { show_help = true })
parse_argument arg version next following result = next (record result { show_version = true })
parse_argument arg (config_equals path) next following result =
    next (record result { config_path = path })
parse_argument arg config next none result = failure 2002 "Missing value for --config"
parse_argument arg config next (some (value, go_on)) result =
    go_on (record result { config_path = value })
parse_argument arg (set_equals text) next following result =
    push_override next result (parse_key_value text)
parse_argument arg set next none result = failure 2002 "Missing value for --set"
parse_argument arg set next (some (value, go_on)) result =
    push_override go_on result (parse_key_value value)
parse_argument arg unknown next following result = failure 2001 (concat "Unknown argument: " arg)
parse_argument arg unknown_short next following result =
    failure 2001 (concat "Unknown short argument: " arg)
parse_argument arg positional next following result =
    next (record result { positional_args = result.positional_args ++ arg ∷ [] })

unfoldable pub parse_loop : List String → Rest
unfolding classify parse_key_value
parse_loop [] result = ok result
parse_loop (arg ∷ []) result = parse_argument arg (classify arg) (parse_loop []) none result
parse_loop (arg ∷ value ∷ rest) result =
    parse_argument arg (classify arg) (parse_loop (value ∷ rest)) (some (value, parse_loop rest))
      result

unfoldable pub parse : List String → Result ParsedArgs
unfolding parse_loop
parse args = parse_loop args new_args
