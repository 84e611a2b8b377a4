-- ===== src/FileUtils.antt =====
-- src/file_utils.cc: the hosts file, read line by line, and the domains in it. The file system gives
-- the text of a file by its name, or `none` where it cannot be opened.
pub mod Reread
pub mod Tests
use dns_server.Common.{
  ℕ, ◌%◌, Bool, ◌||◌, ◌&&◌, Option, none, some, List, [], ◌∷◌, map, Bytes, codes, length, leb, ◌==◌,
  if◌then◌else◌, Outcome, ok, ◌>>=◌, or_crash, zero, suc,
}
use dns_server.Coms.Table.{Translations}
use mathlib.Core.Option

-- `std::getline` until it fails: the lines, without the newlines that end them. What follows the last
-- newline is a line if it is not empty.
unfoldable pub prepend_to_line : ℕ → List Bytes → List Bytes
prepend_to_line c [] = (c ∷ []) ∷ []
prepend_to_line c (line ∷ rest) = (c ∷ line) ∷ rest

unfoldable pub lines_of : Bytes → List Bytes
unfolding prepend_to_line
lines_of [] = []
lines_of (c ∷ rest) =
    let lines = lines_of rest in if c == b'\n' then [] ∷ lines else prepend_to_line c lines

-- `isspace`: the blank, and the bytes from tab to carriage return
abbrev pub is_space : ℕ → Bool
is_space c = c == b' ' || (leb 9 c && leb c 13)

unfoldable pub skip_spaces : Bytes → Bytes
skip_spaces [] = []
skip_spaces (c ∷ rest) = let more = skip_spaces rest in if is_space c then more else c ∷ rest

unfoldable pub span_word : Bytes → Bytes × Bytes
span_word [] = ([], [])
span_word (c ∷ rest) =
    let (word, more) = span_word rest in if is_space c then ([], c ∷ rest) else (c ∷ word, more)

-- `iss >> word`; it fails where nothing but spaces is left.
unfoldable pub nonempty_word : Bytes × Bytes → Option (Bytes × Bytes)
nonempty_word ([], more) = none
nonempty_word (c ∷ word, more) = some (c ∷ word, more)

unfoldable pub read_word : Bytes → Option (Bytes × Bytes)
unfolding skip_spaces span_word nonempty_word
read_word text = nonempty_word (span_word (skip_spaces text))

-- `iss >> domain >> ip`: a line that has no two words aborts the program.
unfoldable pub parse_line : Bytes → Outcome (Bytes × Bytes)
parse_line line = do
  (domain, more) ← or_crash (read_word line)
  (ip, _) ← or_crash (read_word more)
  ok (domain, ip)

unfoldable pub parse_lines : List Bytes → Outcome Translations
unfolding parse_line
parse_lines [] = ok []
parse_lines (line ∷ rest) = do
  translation ← parse_line line
  translations ← parse_lines rest
  ok (translation ∷ translations)

-- `parse_hosts_file`. The name it is given is not used, and a file that cannot be opened has no lines.
unfoldable pub parse_hosts_file : (Bytes → Option Bytes) → Bytes → Outcome Translations
unfolding parse_lines lines_of
parse_hosts_file files filename = elim (files (codes "hosts.txt")) [
  | none ↦ ok []
  | some text ↦ parse_lines (lines_of text)
]

-- What `strdup` copies of the text of a `std::string`.
abbrev pub up_to_nul : Bytes → Bytes
up_to_nul [] = []
up_to_nul (zero ∷ rest) = []
up_to_nul (suc b ∷ rest) = suc b ∷ up_to_nul rest

-- `get_domains`: the count, a uint8_t, and the array of copies.
unfoldable pub get_domains : (Bytes → Option Bytes) → Bytes → Outcome (ℕ × List Bytes)
get_domains files filename = do
  translations ← parse_hosts_file files filename
  ok (length translations % 256, map (λ (t : Bytes × Bytes). up_to_nul t.0) translations)
