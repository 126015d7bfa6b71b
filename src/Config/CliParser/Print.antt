-- ===== src/Config/CliParser/Print.antt =====
-- Arguments that are printed are read back.
use Prim.Native.Char.{code}
use Prim.Native.String.{String}
use common_system.Prelude.{
  not, Bool, true, false, ◌&&◌, ◌≡◌, refl, ap, subst, sym, ◌∙◌, some, List, [], ◌∷◌, ◌++◌, ◌==◌,
  if◌then◌else◌, All, arith, append_assoc, append-nil,
}
use common_system.Result.Core.{ok}
use common_system.Config.CliParser.{
  ParsedArgs, new_args, classify, parse, parse_loop, parse_key_value, split_at_equals, trim_left,
  trim_right, is_empty, is_blank, push_override, starts_with, config_equals, set_equals, positional,
}

abbrev pub join : String → String → String
join String.[] t = t
join (String.◌∷◌ c s) t = String.◌∷◌ c (join s t)

set_classified : (text : String) → classify (join "--set=" text) ≡ set_equals text
unfolding classify
set_classified text = refl

config_classified : (path : String) → classify (join "--config=" path) ≡ config_equals path
unfolding classify
config_classified path = refl

-- A key without '=' that neither begins nor ends with a blank.
abbrev pub no_equals : String → Bool
no_equals String.[] = true
no_equals (String.◌∷◌ c s) = not (code c == b'=') && no_equals s

abbrev pub starts_tight : String → Bool
starts_tight String.[] = false
starts_tight (String.◌∷◌ c s) = not (is_blank (code c))

abbrev pub ends_tight : String → Bool
ends_tight String.[] = true
ends_tight (String.◌∷◌ c String.[]) = not (is_blank (code c))
ends_tight (String.◌∷◌ c (String.◌∷◌ d s)) = ends_tight (String.◌∷◌ d s)

abbrev pub IsKey : String → Type 0
IsKey key = (no_equals key ≡ true) × (starts_tight key ≡ true) × (ends_tight key ≡ true)

split_joined :
    (key value : String)
    → no_equals key ≡ true
    → split_at_equals (join key (join "=" value)) ≡ some (key, value)
unfolding split_at_equals
split_joined String.[] value free = refl
split_joined (String.◌∷◌ c key) value free = ground (arith, free, split_joined key value)

left_tight : (key : String) → starts_tight key ≡ true → trim_left key ≡ key
unfolding trim_left
left_tight String.[] tight = refl
left_tight (String.◌∷◌ c key) tight = ground (arith, tight)

right_tight : (key : String) → ends_tight key ≡ true → trim_right key ≡ key
unfolding trim_right
right_tight String.[] tight = refl
right_tight (String.◌∷◌ c String.[]) tight = ground (arith, tight)
right_tight (String.◌∷◌ c (String.◌∷◌ d s)) tight =
    subst
      (λ t.
        (if is_blank (code c) && is_empty t then String.[] else String.◌∷◌ c t)
        ≡ String.◌∷◌ c (String.◌∷◌ d s))
      (sym (right_tight (String.◌∷◌ d s) tight)) (ground arith)

not_empty : (key : String) → starts_tight key ≡ true → is_empty key ≡ false
not_empty String.[] tight = absurd (cc tight)
not_empty (String.◌∷◌ c key) tight = refl

key_value_joined :
    (key value : String) → IsKey key → parse_key_value (join key (join "=" value)) ≡ ok (key, value)
unfolding parse_key_value
key_value_joined key value (free, starts, ends) =
    let trims : trim_right (trim_left key) ≡ key =
      ap trim_right (left_tight key starts) ∙ right_tight key ends in
    rw (split_joined key value free, parse_key_value) (rw trims (rw (not_empty key starts) refl))

plain_classified : (arg : String) → starts_with arg "-" ≡ false → classify arg ≡ positional
unfolding classify
plain_classified String.[] p = refl
plain_classified (String.◌∷◌ c arg) p = ground (arith, p)

-- The loop at an argument that needs no other one.
loop_set :
    (arg text : String) (rest : List String) (r : ParsedArgs)
    → classify arg ≡ set_equals text
    → parse_loop (arg ∷ rest) r ≡ push_override (parse_loop rest) r (parse_key_value text)
unfolding parse_loop
loop_set arg text [] r k = rw (k, parse_loop) refl
loop_set arg text (value ∷ rest) r k = rw (k, parse_loop) refl

loop_plain :
    (arg : String) (rest : List String) (r : ParsedArgs)
    → classify arg ≡ positional
    → parse_loop (arg ∷ rest) r
      ≡ parse_loop rest (record r { positional_args = r.positional_args ++ arg ∷ [] })
unfolding parse_loop
loop_plain arg [] r k = rw (k, parse_loop) refl
loop_plain arg (value ∷ rest) r k = rw (k, parse_loop) refl

abbrev pub print_overrides : List (String × String) → List String
print_overrides [] = []
print_overrides ((key, value) ∷ rest) =
    join "--set=" (join key (join "=" value)) ∷ print_overrides rest

loop_overrides :
    (os : List (String × String)) (rest : List String) (r : ParsedArgs)
    → All (λ (pair : String × String). IsKey pair.0) os
    → parse_loop (print_overrides os ++ rest) r
      ≡ parse_loop rest (record r { overrides = r.overrides ++ os })
unfolding ok parse_loop
loop_overrides [] rest r keys = rw (append-nil r.overrides) refl
loop_overrides ((key, value) ∷ os) rest r (k, keys) =
    let text = join key (join "=" value) in
    loop_set (join "--set=" text) text (print_overrides os ++ rest) r (set_classified text)
    ∙ rw (key_value_joined key value k)
        (loop_overrides os rest (record r { overrides = r.overrides ++ (key, value) ∷ [] }) keys)
    ∙ ap (λ all. parse_loop rest (record r { overrides = all }))
        (append_assoc r.overrides ((key, value) ∷ []) os)

loop_arguments :
    (args : List String) (r : ParsedArgs)
    → All (λ (arg : String). starts_with arg "-" ≡ false) args
    → parse_loop args r ≡ ok (record r { positional_args = r.positional_args ++ args })
unfolding parse_loop
loop_arguments [] r plain = rw (append-nil r.positional_args) refl
loop_arguments (arg ∷ args) r (p, plain) =
    loop_plain arg args r (plain_classified arg p)
    ∙ loop_arguments args (record r { positional_args = r.positional_args ++ arg ∷ [] }) plain
    ∙ ap (λ all. ok (record r { positional_args = all }))
        (append_assoc r.positional_args (arg ∷ []) args)

abbrev pub print_flag : Bool → String → List String → List String
print_flag false option rest = rest
print_flag true option rest = option ∷ rest

-- The arguments that say what the record holds.
abbrev pub print : ParsedArgs → List String
print a = print_flag a.show_help "--help" (
    print_flag a.show_version "--version"
      (join "--config=" a.config_path ∷ (print_overrides a.overrides ++ a.positional_args)))

loop_help :
    (flag : Bool) (rest : List String)
    → parse_loop (print_flag flag "--help" rest) new_args
      ≡ parse_loop rest (record new_args { show_help = flag })
unfolding parse_loop classify
loop_help false rest = refl
loop_help true [] = refl
loop_help true (value ∷ rest) = refl

loop_version :
    (asked flag : Bool) (rest : List String)
    → parse_loop (print_flag flag "--version" rest) (record new_args { show_help = asked })
      ≡ parse_loop rest (record new_args { show_help = asked; show_version = flag })
unfolding parse_loop classify
loop_version asked false rest = refl
loop_version asked true [] = refl
loop_version asked true (value ∷ rest) = refl

loop_config :
    (path : String) (rest : List String) (r : ParsedArgs)
    → parse_loop (join "--config=" path ∷ rest) r
      ≡ parse_loop rest (record r { config_path = path })
unfolding parse_loop classify
loop_config path [] r = refl
loop_config path (value ∷ rest) r = refl

-- Where no key of an override is empty, has an equals sign or begins or ends with a blank, and no
-- positional argument begins with a dash, parse reads the arguments that print gives for a record as
-- this record: the flags, the path, the overrides with any values, and the positional arguments, in
-- their order.
pub parse-print :
    (a : ParsedArgs)
    → All (λ (pair : String × String). IsKey pair.0) a.overrides
    → All (λ (arg : String). starts_with arg "-" ≡ false) a.positional_args
    → parse (print a) ≡ ok a
unfolding parse
parse-print a keys plain =
    let rest = print_overrides a.overrides ++ a.positional_args in
    let options = record new_args { show_help = a.show_help; show_version = a.show_version } in
    let opened = record options { config_path = a.config_path } in
    loop_help a.show_help
      (print_flag a.show_version "--version" (join "--config=" a.config_path ∷ rest))
    ∙ loop_version a.show_help a.show_version (join "--config=" a.config_path ∷ rest)
    ∙ loop_config a.config_path rest options
    ∙ loop_overrides a.overrides a.positional_args opened keys
    ∙ loop_arguments a.positional_args (record opened { overrides = a.overrides }) plain
