-- ===== src/Shared/CommandLine.antt =====
-- The command lines of local/main.py and remote/main.py: `ArgumentParser.parse_args` of Python 3.11, as
-- far as the two programs use it. A parser is the list of its option strings, without positionals.
pub mod Asked
use wan_router_notifications.Common.{
  Bool, true, false, not, ◌&&◌, ◌||◌, List, [], ◌∷◌, Option, none, some, length, ◌==◌,
  if◌then◌else◌,
}
use wan_router_notifications.Common.Text.{Text, starts_with, codes, text_eq, is_truthy}
use wan_router_notifications.Common.Dict
use wan_router_notifications.Common.Dict.{Dict}
use wan_router_notifications.Common.Regex.{
  Item, choice, literal, exactly, greedy_star, greedy_plus, match_at, total_length,
}
use wan_router_notifications.Common.Unicode.{Unicode, is_digit}

-- `add_argument`: what an option does
pub data Action : Type 0 where
  show_help set_config set_mock_snmp set_mock_telegram set_verbose : Action

-- `args`; remote/main.py has no `mock_snmp`
pub record Args : Type 0 where
  pub config : Text
  pub mock_snmp : Bool
  pub mock_telegram : Bool
  pub verbose : Bool

abbrev pub default_args : Text → Args
default_args config = record {
  config = config;
  mock_snmp = false;
  mock_telegram = false;
  verbose = false;
}

-- what an argument may mean: the action, the value that is written in the same argument, and whether
-- the option string has one dash
pub record Match : Type 0 where
  pub action : Action
  pub explicit : Option Text
  pub one_dash : Bool

abbrev is_short : Text → Bool
is_short (d ∷ c ∷ s) = not (c == 45)
is_short _ = false

-- `arg_string.split("=", 1)`, where there is a `=`
pub split_equals : Text → Option (Text × Text)
split_equals [] = none
split_equals (c ∷ s) =
    let later = split_equals s in
    if c == 61 then some ([], s) else elim later [ none ↦ none | some (o, e) ↦ some (c ∷ o, e) ]

-- the options that a prefix with two dashes may stand for
pub long_matches : Dict Action → Text → Option Text → List Match
unfolding starts_with
long_matches [] prefix e = []
long_matches ((name, action) ∷ options) prefix e =
    let later = long_matches options prefix e in
    if starts_with prefix name
    then (record { action = action; explicit = e; one_dash = false }) ∷ later
    else later

-- an option of one dash with what follows its letter
pub short_matches : Dict Action → Text → List Match
short_matches options (d ∷ c ∷ s) = elim (Dict.get options (d ∷ c ∷ [])) [
  | none ↦ []
  | some action ↦ (record { action = action; explicit = some s; one_dash = true }) ∷ []
]
short_matches options _ = []

pub abbreviated : Dict Action → Text → Text → Option Text → List Match
unfolding long_matches short_matches starts_with
abbreviated options arg prefix e =
    if starts_with (codes "--") arg
    then long_matches options prefix e
    else short_matches options arg

-- `_parse_optional`: the option string itself, or with `=` and a value, or what it may abbreviate
unfoldable pub matches : Dict Action → Text → List Match
unfolding split_equals abbreviated
matches options arg = elim (Dict.get options arg) [
  | some action ↦ (record { action = action; explicit = none; one_dash = is_short arg }) ∷ []
  | none ↦ elim (split_equals arg) [
    | none ↦ abbreviated options arg arg none
    | some (o, e) ↦ elim (Dict.get options o) [
      | some action ↦ (record { action = action; explicit = some e; one_dash = is_short o }) ∷ []
      | none ↦ abbreviated options arg o (some e)
    ]
  ]
]

-- the pattern matches the text up to its end, or to a line break there
pub matches_whole : List Item → Text → Bool
unfolding total_length
matches_whole is s = elim (match_at is s) [ none ↦ false | some ps ↦ total_length ps == length s ]

-- `^-\d+$|^-\d*\.\d+$`
unfoldable pub is_negative_number : Unicode → Text → Bool
unfolding matches_whole
is_negative_number u s =
    let end = choice (literal (codes "\n") ∷ [] ∷ []) in
    let digits = greedy_plus (is_digit u) in
    matches_whole (exactly (codes "-") ∷ digits ∷ end ∷ []) s
    || matches_whole
        (exactly (codes "-") ∷ greedy_star (is_digit u) ∷ exactly (codes ".") ∷ digits ∷ end ∷ []) s

pub has_space : Text → Bool
has_space [] = false
has_space (c ∷ s) = c == 32 || has_space s

abbrev pub is_empty : List Match → Bool
is_empty [] = true
is_empty (m ∷ ms) = false

-- whether an argument may be the value of the option before it
unfoldable pub is_argument : Unicode → Dict Action → Text → Bool
unfolding starts_with has_space matches is_negative_number
is_argument u options arg =
    not (starts_with (codes "-") arg)
    || (text_eq arg (codes "-")
        || (is_empty (matches options arg) && (is_negative_number u arg || has_space arg)))

-- After an option: the program has ended, with help or a usage error; the option is taken; or its value
-- is the next argument.
pub data Outcome : Type 0 where
  ended : Outcome
  taken wanting : Args → Outcome

-- `--` as a value in the same argument is dropped, and the file cannot be opened.
abbrev pub take_config : Text → Args → Outcome
take_config e a = if text_eq e (codes "--") then ended else taken (record a { config = e })

abbrev pub take : Action → Args → Outcome
take show_help a = ended
take set_config a = wanting a
take set_mock_snmp a = taken (record a { mock_snmp = true })
take set_mock_telegram a = taken (record a { mock_telegram = true })
take set_verbose a = taken (record a { verbose = true })

-- a letter after one of an option with no value is one more option, with one dash
abbrev pub then_take : (Args → Outcome) → Outcome → Outcome
then_take next (taken a) = next a
then_take next _ = ended

pub take_letters : Dict Action → Action → Text → Args → Outcome
take_letters options set_config e a = take_config e a
take_letters options action [] a = ended
take_letters options action (c ∷ e) a = elim (Dict.get options (45 ∷ c ∷ [])) [
  | none ↦ ended
  | some next ↦
      then_take (λ b. if is_truthy e then take_letters options next e b else take next b)
        (take action a)
]

abbrev pub take_value : Action → Text → Args → Outcome
take_value set_config e a = take_config e a
take_value _ e a = ended

pub take_match : Dict Action → Match → Args → Outcome
unfolding take_letters
take_match options m a = elim m.explicit [
  | none ↦ take m.action a
  | some e ↦ if m.one_dash then take_letters options m.action e a else take_value m.action e a
]

-- one argument where none is waited for; what abbreviates several options or none is an error
abbrev pub take_one : Dict Action → List Match → Args → Outcome
take_one options (m ∷ []) a = take_match options m a
take_one options _ a = ended

-- The arguments from left to right; the flag is whether the value of `--config` is waited for.
pub parse_loop : Unicode → Dict Action → List Text → Bool → Args → Option Args
unfolding take_match
parse_loop u options [] true a = none
parse_loop u options [] false a = some a
parse_loop u options (arg ∷ rest) true a =
    let later = parse_loop u options rest false (record a { config = arg }) in
    if is_argument u options arg then later else none
parse_loop u options (arg ∷ rest) false a = elim (take_one options (matches options arg) a) [
  | ended ↦ none
  | taken b ↦ parse_loop u options rest false b
  | wanting b ↦ parse_loop u options rest true b
]

-- `parser.parse_args(argv)`, where `none` is the end of the program
unfoldable pub parse_args : Unicode → Dict Action → Text → List Text → Option Args
unfolding parse_loop
parse_args u options config argv = parse_loop u options argv false (default_args config)
