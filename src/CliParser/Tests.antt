-- ===== src/CliParser/Tests.antt =====
-- Runs of the command line parser, and its properties at concrete command lines.
use dns_server.Common.{
  ◌-◌, ◌<◌, ◌≡◌, refl, ℤ, pos, true, false, some, List, [], ◌∷◌, ◌++◌, Bytes, codes, ok, crash,
  uint8,
}
use dns_server.CliParser.{Opt, opt_a, opt_d, opt_t, opt_c, opt_unknown, defaults, parse_cli}
use dns_server.CliParser.Options.{is_accepted, last_of, described, parse_cli_lem, parse_cli-rejects}

-- An `atoi` for texts of one digit; "-1" and others are not needed here.
abbrev digit : Bytes → ℤ
digit [] = pos 0
digit (c ∷ _) = pos (c - 48)

-- -a -t one -c 2 -t two
abbrev line : List Opt
line = opt_a ∷ opt_t (codes "one") ∷ opt_c (codes "2") ∷ opt_t (codes "two") ∷ []

line_args : described digit line defaults ≡ record {
  test_name = some (codes "two");
  starting_server_cnt = 2;
  randomly_disable = false;
  add_midway = true;
  make_translation_changes = false;
  fail_translation_changes = false;
}
unfolding last_of uint8
line_args = refl

parse_cli_lem_example : parse_cli digit line ≡ ok (0, described digit line defaults)
unfolding is_accepted last_of uint8
parse_cli_lem_example = parse_cli_lem digit line (refl, (refl, (refl, (refl, tt)))) refl

parse_cli-rejects_example :
    (parse_cli digit (line ++ (opt_unknown ∷ opt_d ∷ [])) ≡ ok (1, described digit line defaults))
    × ((optarg : Bytes)
        → 5 < uint8 (digit optarg)
        → parse_cli digit (line ++ (opt_c optarg ∷ opt_d ∷ [])) ≡ crash)
unfolding is_accepted uint8
parse_cli-rejects_example =
    parse_cli-rejects digit line (opt_d ∷ []) (refl, (refl, (refl, (refl, tt))))
