-- ===== src/FileUtils/Reread.antt =====
-- A hosts file that a server wrote, read again.
use dns_server.Common.{
  ◌≡◌, ◌≢◌, refl, sym, ap, ◌∙◌, All-append, false, Option, some, [], ◌∷◌, ◌++◌, append_assoc, All,
  Bytes, codes, ok, arith,
}
use dns_server.Coms.{hosts_text}
use dns_server.Coms.Table.{Translations}
use dns_server.FileUtils.{
  prepend_to_line, lines_of, is_space, skip_spaces, span_word, nonempty_word, read_word, parse_line,
  parse_lines, parse_hosts_file,
}

-- A word of the hosts file: not empty, with no space of any kind.
abbrev pub IsToken : Bytes → Type 0
IsToken w = (w ≢ []) × All (λ c. is_space c ≡ false) w

abbrev pub AreTokens : Bytes × Bytes → Type 0
AreTokens entry = IsToken entry.0 × IsToken entry.1

-- A line of the file is read up to its newline.
lines_of-line :
    (line rest : Bytes)
    → All (λ c. c ≢ b'\n') line
    → lines_of (line ++ (b'\n' ∷ rest)) ≡ line ∷ lines_of rest
unfolding lines_of prepend_to_line
lines_of-line [] rest h = refl
lines_of-line (c ∷ line) rest h = rw (lines_of-line line rest h.1) (ground arith)

span_word-token :
    (w rest : Bytes)
    → All (λ c. is_space c ≡ false) w
    → span_word (w ++ (b' ' ∷ rest)) ≡ (w, b' ' ∷ rest)
unfolding span_word
span_word-token [] rest h = refl
span_word-token (c ∷ w) rest h = rw (span_word-token w rest h.1, h.0)

span_word-All : (w : Bytes) → All (λ c. is_space c ≡ false) w → span_word w ≡ (w, [])
unfolding span_word
span_word-All [] h = refl
span_word-All (c ∷ w) h = rw (span_word-All w h.1, h.0)

read_word-token :
    (w rest : Bytes) → IsToken w → read_word (w ++ (b' ' ∷ rest)) ≡ some (w, b' ' ∷ rest)
unfolding read_word skip_spaces nonempty_word
read_word-token [] rest h = absurd (h.0 refl)
read_word-token (c ∷ w) rest h = rw (h.1.0, span_word-token (c ∷ w) rest h.1)

read_word-last : (w : Bytes) → IsToken w → read_word (b' ' ∷ w) ≡ some (w, [])
unfolding read_word skip_spaces nonempty_word
read_word-last [] h = absurd (h.0 refl)
read_word-last (c ∷ w) h = rw (h.1.0, span_word-All (c ∷ w) h.1)

parse_line-tokens :
    (domain ip : Bytes)
    → IsToken domain
    → IsToken ip
    → parse_line (domain ++ (b' ' ∷ ip)) ≡ ok (domain, ip)
unfolding parse_line
parse_line-tokens domain ip hd hi = rw (read_word-token domain ip hd, read_word-last ip hi)

no_newline : (w : Bytes) → All (λ c. is_space c ≡ false) w → All (λ c. c ≢ b'\n') w
no_newline [] h = tt
no_newline (c ∷ w) h = (ground arith, no_newline w h.1)

entry_line :
    (domain ip rest : Bytes)
    → domain ++ (codes " " ++ (ip ++ (b'\n' ∷ rest))) ≡ (domain ++ (b' ' ∷ ip)) ++ (b'\n' ∷ rest)
entry_line domain ip rest = sym (append_assoc domain (b' ' ∷ ip) (b'\n' ∷ rest))

-- What is written of a table of words reads back entry by entry.
pub parse_lines-hosts_text :
    (t : Translations) → All AreTokens t → parse_lines (lines_of (hosts_text t)) ≡ ok t
unfolding hosts_text parse_lines lines_of
parse_lines-hosts_text [] h = refl
parse_lines-hosts_text ((domain, ip) ∷ rest) ((hd, hi), h) =
    ap (λ text. parse_lines (lines_of text)) (entry_line domain ip (hosts_text rest))
    ∙ ap parse_lines (
        lines_of-line (domain ++ (b' ' ∷ ip)) (hosts_text rest) (
          All-append (λ c. c ≢ b'\n') domain (b' ' ∷ ip) (no_newline domain hd.1)
            (omega arith, no_newline ip hi.1)))
    ∙ rw (parse_line-tokens domain ip hd hi, parse_lines-hosts_text rest h)

-- The file hosts.txt is read whatever name is given.
pub parse_hosts_file-hosts_text :
    (files : Bytes → Option Bytes) (filename : Bytes) (t : Translations)
    → All AreTokens t
    → files (codes "hosts.txt") ≡ some (hosts_text t)
    → parse_hosts_file files filename ≡ ok t
unfolding parse_hosts_file
parse_hosts_file-hosts_text files filename t words stored =
    rw (stored, parse_hosts_file) (parse_lines-hosts_text t words)
