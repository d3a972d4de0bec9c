-- ===== src/EnvFile/RoundTrip.antt =====
-- Entries written in the formats of internal/runner/stepenv.go, and parseEnvFile on them.
use ghenkins.Prelude.{
  ◌≡◌, refl, ap, ◌∙◌, false, List, [], ◌∷◌, ◌++◌, append_assoc, append-nil, none, some, arith,
  length, All,
}
use ghenkins.Prelude.{take_front, drop_front}
use ghenkins.Prelude.Text.{HasNo, index_byte}
use ghenkins.Prelude.Text.{
  Str, lit, str_eq, str_eq_self, index, has_prefix, split, split_head, split_tail,
}
use ghenkins.Prelude.Dict.{Dict, insert}
use ghenkins.EnvFile.{
  pair, heredoc, newline, read_line, heredoc_of, parse_lines, parse_heredoc, parse_env_file,
}

-- KEY=value, or KEY<<DELIMITER with the lines of the value.
pub data Entry : Type 0 where
  assign : Str → Str → Entry
  block : Str → Str → List Str → Entry

abbrev pub unlines : List Str → Str
unlines [] = []
unlines (l ∷ ls) = l ++ newline ∷ unlines ls

unfoldable pub entry_lines : Entry → List Str → List Str
entry_lines (assign k v) rest = (k ++ b'=' ∷ v) ∷ rest
entry_lines (block k d ls) rest = (k ++ b'<' ∷ b'<' ∷ d) ∷ (ls ++ d ∷ rest)

unfoldable pub print_lines : List Entry → List Str
unfolding entry_lines
print_lines [] = []
print_lines (e ∷ es) = entry_lines e (print_lines es)

-- The map with the entries' values; a later entry of a key replaces an earlier one, and a value of
-- lines ends each of them.
unfoldable pub store_all : List Entry → Dict Str → Dict Str
store_all [] m = m
store_all (assign k v ∷ es) m = store_all es (insert k v m)
store_all (block k d ls ∷ es) m = store_all es (insert k (unlines ls) m)

-- A key stands in front of the first "=" or "<<" of its line.
abbrev pub IsEntry : Entry → Type 0
IsEntry (assign k v) =
    (str_eq k [] ≡ false) × HasNo b'=' k × (index (k ++ b'=' ∷ v) (lit "<<") ≡ none)
IsEntry (block k d ls) =
    (str_eq k [] ≡ false) × (str_eq d [] ≡ false) × HasNo b'<' k × All (λ l. str_eq l d ≡ false) ls

index-double :
    (k d : Str) → HasNo b'<' k → index (k ++ b'<' ∷ b'<' ∷ d) (lit "<<") ≡ some (length k)
unfolding index has_prefix lit
index-double [] d h = refl
index-double (x ∷ k) d h = ground (arith, index-double k d h.1)

not_empty : (k s : Str) → str_eq k [] ≡ false → str_eq (k ++ s) [] ≡ false
unfolding str_eq
not_empty [] s h = cc
not_empty (x ∷ k) s h = refl

read_line-assign : (k v : Str) → IsEntry (assign k v) → read_line (k ++ b'=' ∷ v) ≡ pair k v
unfolding read_line heredoc_of str_eq lit
read_line-assign k v h =
    rw
      (
        not_empty k (b'=' ∷ v) h.0,
        h.2,
        read_line,
        index_byte b'=' k v h.1,
        take_front k (b'=' ∷ v),
        h.0,
        drop_front 1 k (b'=' ∷ v),
      )
      refl

read_line-block :
    (k d : Str) (ls : List Str)
    → IsEntry (block k d ls)
    → read_line (k ++ b'<' ∷ b'<' ∷ d) ≡ heredoc k d
unfolding read_line heredoc_of str_eq lit
read_line-block k d ls h =
    rw
      (
        not_empty k (b'<' ∷ b'<' ∷ d) h.0,
        index-double k d h.2,
        take_front k (b'<' ∷ b'<' ∷ d),
        h.0,
        drop_front 2 k (b'<' ∷ b'<' ∷ d),
        h.1,
      )
      refl

parse_heredoc-block :
    (k d buf : Str) (ls rest : List Str) (m : Dict Str)
    → All (λ l. str_eq l d ≡ false) ls
    → parse_heredoc k d buf (ls ++ d ∷ rest) m ≡ parse_lines rest (insert k (buf ++ unlines ls) m)
unfolding parse_heredoc
parse_heredoc-block k d buf [] rest m h = rw (str_eq_self d, parse_heredoc, append-nil buf) refl
parse_heredoc-block k d buf (l ∷ ls) rest m h =
    rw (h.0, parse_heredoc)
      (parse_heredoc-block k d (buf ++ l ++ newline ∷ []) ls rest m h.1
        ∙ ap (λ v. parse_lines rest (insert k v m))
            (append_assoc (buf ++ l) (newline ∷ []) (unlines ls)
              ∙ append_assoc buf l (newline ∷ unlines ls)))

-- The loop over the lines of entries, in front of the empty part behind the last newline.
parse_lines-print :
    (es : List Entry) (m : Dict Str)
    → All IsEntry es
    → parse_lines (print_lines es ++ [] ∷ []) m ≡ store_all es m
unfolding parse_lines print_lines entry_lines store_all read_line str_eq lit
parse_lines-print [] m h = refl
parse_lines-print (assign k v ∷ es) m h =
    rw (read_line-assign k v h.0, parse_lines) (parse_lines-print es (insert k v m) h.1)
parse_lines-print (block k d ls ∷ es) m h =
    rw (read_line-block k d ls h.0, parse_lines, append_assoc ls (d ∷ print_lines es) ([] ∷ []))
      (parse_heredoc-block k d [] ls (print_lines es ++ [] ∷ []) m h.0.3
        ∙ parse_lines-print es (insert k (unlines ls) m) h.1)

split-line : (l s : Str) → HasNo newline l → split newline (l ++ newline ∷ s) ≡ l ∷ split newline s
unfolding split split_head split_tail
split-line [] s h = refl
split-line (x ∷ l) s h = ground (arith, split-line l s h.1)

split-unlines :
    (ls : List Str) → All (HasNo newline) ls → split newline (unlines ls) ≡ ls ++ [] ∷ []
unfolding split split_head split_tail
split-unlines [] h = refl
split-unlines (l ∷ ls) h = split-line l (unlines ls) h.0 ∙ ap (λ r. l ∷ r) (split-unlines ls h.1)

abbrev pub print : List Entry → Str
print es = unlines (print_lines es)

parse_env_file-lines : (s : Str) → parse_env_file s ≡ parse_lines (split newline s) []
unfolding parse_env_file split split_head split_tail parse_lines read_line str_eq lit
parse_env_file-lines [] = refl
parse_env_file-lines (x ∷ s) = refl

-- parseEnvFile reads entries back from the lines written for them, each ended by a newline: `KEY=value`
-- gives the value, and KEY<<DELIMITER gives the lines up to the delimiter, each with its newline. Keys
-- and delimiters are not empty, a key stands in front of the first "=" or "<<" of its line, no line of a
-- value is its delimiter, an assignment has no "<<", and no line holds a newline.
pub parse_env_file-print :
    (es : List Entry)
    → All IsEntry es
    → All (HasNo newline) (print_lines es)
    → parse_env_file (print es) ≡ store_all es []
parse_env_file-print es h l =
    parse_env_file-lines (print es)
    ∙ ap (λ ls. parse_lines ls []) (split-unlines (print_lines es) l)
    ∙ parse_lines-print es [] h
