-- ===== src/CliParser/Options.antt =====
-- Which arguments `parse_cli` makes of the options.
use dns_server.Common.{
  ℕ, ℤ, ◌≡◌, refl, Bool, true, false, not, Option, none, some, List, [], ◌∷◌, ◌++◌, Bytes, uint8,
  ltb, ok, crash, All, Bool-cases, inl, inr, ◌<◌, append-nil, lt→ltb, ap, sym,
}
use dns_server.CliParser.{
  Opt, opt_a, opt_d, opt_x, opt_f, opt_t, opt_c, opt_unknown, Arguments, defaults, parse_option,
  parse_options, require_name, parse_cli,
}

-- A known option, with a server count that is at most 5 as a uint8_t.
unfoldable pub is_accepted : (Bytes → ℤ) → Opt → Bool
is_accepted atoi (opt_c optarg) = not (ltb 5 (uint8 (atoi optarg)))
is_accepted atoi opt_unknown = false
is_accepted atoi opt_a = true
is_accepted atoi opt_d = true
is_accepted atoi opt_x = true
is_accepted atoi opt_f = true
is_accepted atoi (opt_t optarg) = true

-- The value that the last option with one gives, or the given value.
unfoldable pub last_of {ℓ} : {A : Type ℓ} → (Opt → Option A) → A → List Opt → A
last_of pick default [] = default
last_of pick default (o ∷ rest) = elim (pick o) [
  | none ↦ last_of pick default rest
  | some a ↦ last_of pick a rest
]

abbrev pub name_of : Opt → Option (Option Bytes)
name_of (opt_t optarg) = some (some optarg)
name_of _ = none

abbrev pub count_of : (Bytes → ℤ) → Opt → Option ℕ
count_of atoi (opt_c optarg) = some (uint8 (atoi optarg))
count_of atoi _ = none

abbrev pub disable_of : Opt → Option Bool
disable_of opt_d = some true
disable_of _ = none

abbrev pub add_of : Opt → Option Bool
add_of opt_a = some true
add_of _ = none

abbrev pub change_of : Opt → Option Bool
change_of opt_x = some true
change_of _ = none

abbrev pub fail_of : Opt → Option Bool
fail_of opt_f = some true
fail_of _ = none

-- Every argument has the value that the last option for it gives, or the one before.
abbrev pub described : (Bytes → ℤ) → List Opt → Arguments → Arguments
described atoi opts a = record {
  test_name = last_of name_of a.test_name opts;
  starting_server_cnt = last_of (count_of atoi) a.starting_server_cnt opts;
  randomly_disable = last_of disable_of a.randomly_disable opts;
  add_midway = last_of add_of a.add_midway opts;
  make_translation_changes = last_of change_of a.make_translation_changes opts;
  fail_translation_changes = last_of fail_of a.fail_translation_changes opts;
}

abbrev pub Accepted : (Bytes → ℤ) → List Opt → Type 0
Accepted atoi = All (λ o. is_accepted atoi o ≡ true)

-- Accepted options are worked off, and the loop goes on with what follows them.
parse_options-append :
    (atoi : Bytes → ℤ) (opts rest : List Opt) (a : Arguments)
    → Accepted atoi opts
    → parse_options atoi (opts ++ rest) a ≡ parse_options atoi rest (described atoi opts a)
unfolding parse_options parse_option is_accepted last_of
parse_options-append atoi [] rest a h = refl
parse_options-append atoi (opt_a ∷ opts) rest a h = parse_options-append atoi opts rest _ h.1
parse_options-append atoi (opt_d ∷ opts) rest a h = parse_options-append atoi opts rest _ h.1
parse_options-append atoi (opt_x ∷ opts) rest a h = parse_options-append atoi opts rest _ h.1
parse_options-append atoi (opt_f ∷ opts) rest a h = parse_options-append atoi opts rest _ h.1
parse_options-append atoi (opt_t s ∷ opts) rest a h = parse_options-append atoi opts rest _ h.1
parse_options-append atoi (opt_c s ∷ opts) rest a h = elim (Bool-cases (ltb 5 (uint8 (atoi s)))) [
  | inl large ↦ cc
  | inr small ↦ rw (small, parse_option) (parse_options-append atoi opts rest _ h.1)
]
parse_options-append atoi (opt_unknown ∷ opts) rest a h = cc

parse_options-all :
    (atoi : Bytes → ℤ) (opts : List Opt)
    → Accepted atoi opts
    → parse_options atoi opts defaults ≡ ok (false, described atoi opts defaults)
unfolding parse_options
parse_options-all atoi opts h =
    rw (ap (λ l. parse_options atoi l defaults) (sym (append-nil opts)))
      (parse_options-append atoi opts [] defaults h)

-- If all options are accepted and one of them gives the test name, `parse_cli` returns 0, and each
-- argument has the value that the last option for it gives, or its default.
pub parse_cli_lem :
    (atoi : Bytes → ℤ) (opts : List Opt) {name : Bytes}
    → Accepted atoi opts
    → last_of name_of none opts ≡ some name
    → parse_cli atoi opts ≡ ok (0, described atoi opts defaults)
unfolding parse_cli require_name
parse_cli_lem atoi opts h named = rw (parse_options-all atoi opts h, named)

-- The first option that is not accepted decides: an unknown one makes `parse_cli` return 1 with the
-- arguments so far, whatever follows and with or without a test name; a count above 5 aborts.
pub parse_cli-rejects :
    (atoi : Bytes → ℤ) (opts rest : List Opt)
    → Accepted atoi opts
    → (parse_cli atoi (opts ++ (opt_unknown ∷ rest)) ≡ ok (1, described atoi opts defaults))
      × ((optarg : Bytes)
          → 5 < uint8 (atoi optarg)
          → parse_cli atoi (opts ++ (opt_c optarg ∷ rest)) ≡ crash)
unfolding parse_cli parse_options parse_option
parse_cli-rejects atoi opts rest h = (
  rw (parse_options-append atoi opts (opt_unknown ∷ rest) defaults h),
  λ optarg large. rw (
    parse_options-append atoi opts (opt_c optarg ∷ rest) defaults h,
    lt→ltb 5 (uint8 (atoi optarg)) large,
  ),
)
