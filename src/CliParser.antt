-- ===== src/CliParser.antt =====
-- src/cli_parser.c and include/cli_parser.h: the options of the command line. `getopt` is called with
-- "adxft:c:"; the model takes the list of what it returns until -1, with `optarg` where the option has
-- an argument. `atoi` is a parameter. What is printed is left out.
pub mod Options
pub mod Tests
use dns_server.Common.{
  ℕ, ℤ, Bool, true, false, Option, none, some, List, [], ◌∷◌, Bytes, uint8, ltb, if◌then◌else◌,
  Outcome, ok, crash, ◌>>=◌,
}

-- The cases of the switch. `opt_unknown` is '?': an unknown option, or a missing argument.
pub data Opt : Type 0 where
  opt_a : Opt
  opt_d : Opt
  opt_x : Opt
  opt_f : Opt
  opt_t : Bytes → Opt
  opt_c : Bytes → Opt
  opt_unknown : Opt

-- `arguments_t`; NULL is `none`.
pub record Arguments : Type 0 where
  pub test_name : Option Bytes
  pub starting_server_cnt : ℕ
  pub randomly_disable : Bool
  pub add_midway : Bool
  pub make_translation_changes : Bool
  pub fail_translation_changes : Bool

-- The assignments at the start of `parse_cli`.
abbrev pub defaults : Arguments
defaults = record {
  test_name = none;
  starting_server_cnt = 3;
  randomly_disable = false;
  add_midway = false;
  make_translation_changes = false;
  fail_translation_changes = false;
}

-- The body of the loop: whether it returns early, and the arguments. A uint8_t is never negative.
unfoldable pub parse_option : (Bytes → ℤ) → Opt → Arguments → Outcome (Bool × Arguments)
parse_option atoi opt_a a = ok (false, record a { add_midway = true })
parse_option atoi opt_d a = ok (false, record a { randomly_disable = true })
parse_option atoi opt_x a = ok (false, record a { make_translation_changes = true })
parse_option atoi opt_f a = ok (false, record a { fail_translation_changes = true })
parse_option atoi (opt_t optarg) a = ok (false, record a { test_name = some optarg })
parse_option atoi (opt_c optarg) a =
    let cnt = uint8 (atoi optarg) in
    if ltb 5 cnt then crash else ok (false, record a { starting_server_cnt = cnt })
parse_option atoi opt_unknown a = ok (true, a)

-- The while loop.
unfoldable pub parse_options : (Bytes → ℤ) → List Opt → Arguments → Outcome (Bool × Arguments)
parse_options atoi [] a = ok (false, a)
parse_options atoi (o ∷ rest) a =
    parse_option atoi o a >>= (λ r. if r.0 then ok r else parse_options atoi rest r.1)

-- The end of `parse_cli`: the test name is required.
unfoldable pub require_name : Arguments → Option Bytes → Outcome (ℕ × Arguments)
require_name a none = crash
require_name a (some name) = ok (0, a)

-- `parse_cli`: the code and the arguments; `crash` is `abort`.
unfoldable pub parse_cli : (Bytes → ℤ) → List Opt → Outcome (ℕ × Arguments)
unfolding parse_options require_name
parse_cli atoi opts =
    parse_options atoi opts defaults
    >>= (λ r. if r.0 then ok (1, r.1) else require_name r.1 r.1.test_name)
