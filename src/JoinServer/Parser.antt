-- ===== src/JoinServer/Parser.antt =====
-- The request parser: 11_join_server/parser.hpp and parser.cpp (`TParser`).
pub mod RoundTrip
pub mod Replies
use cpp.Prelude.{
  ℕ, ◌-◌, Bool, true, false, Option, none, some, List, [], ◌∷◌, ◌++◌, ◌==◌, if◌then◌else◌, length,
  Str, bytes, str_eq,
}
use cpp.Prelude.Decimal.{stoi, show_nat, is_space}
use cpp.Prelude.Int.{ℤ, pos}
use cpp.Prelude.Result.{Result, ok, throw, undefined_behaviour, ◌>>=◌}
use cpp.JoinServer.Value.{RowData, int, text}
use cpp.JoinServer.Command.{
  Status, success, error, Command, insert, select, truncate, intersect, difference,
}

-- `TResult`
pub record ParseResult : Type 0 where
  pub status : Status
  pub command : Option Command

abbrev pub accepted : Command → ParseResult
accepted c = record { status = success; command = some c }

abbrev pub refused : Str → ParseResult
refused message = record { status = error message; command = none }

-- A word that is complete is kept if it is not empty.
abbrev pub keep_word : Str → List Str → List Str
keep_word [] results = results
keep_word (c ∷ word) results = (c ∷ word) ∷ results

-- `while (iss >> word)`, in one pass: `word` is what has been read of the current word.
unfoldable pub words_from : Str → Str → List Str
words_from word [] = keep_word word []
words_from word (c ∷ rest) = elim (is_space c) [
  | true ↦ keep_word word (words_from [] rest)
  | false ↦ words_from (word ++ c ∷ []) rest
]

abbrev pub newline : ℕ
newline = 10

unfoldable pub ends_with_newline : Str → Bool
ends_with_newline [] = false
ends_with_newline (c ∷ []) = c == newline
ends_with_newline (c ∷ d ∷ rest) = ends_with_newline (d ∷ rest)

-- `SplitStringBySpace`: the words, or the text of an error.
pub data Splits : Type 0 where
  split : List Str → Splits
  unsplit : Str → Splits

abbrev splits_of : Str → List Str → Splits
splits_of line [] = unsplit (bytes "ERR: cannot split string '" ++ (line ++ bytes "' into tokens"))
splits_of line (word ∷ more) = split (word ∷ more)

unfoldable pub split_string_by_space : Str → Splits
unfolding words_from ends_with_newline
split_string_by_space [] = unsplit (bytes "Empty request")
split_string_by_space (c ∷ line) =
    if ends_with_newline (c ∷ line)
    then splits_of (c ∷ line) (words_from [] (c ∷ line))
    else unsplit (bytes "Every request must be terminated with \\n symbol")

-- "ERR: invalid number of terms for command NAME: wanted W, got G"
unfoldable pub wrong_terms : Str → ℕ → List Str → Str
unfolding show_nat
wrong_terms name wanted splits =
    bytes "ERR: invalid number of terms for command "
    ++ (name ++ (show_nat wanted ++ (bytes ", got " ++ show_nat (length splits))))

unfoldable pub quoted : List Str → Str
quoted [] = []
quoted (s ∷ rest) = bytes "'" ++ (s ++ (bytes "' " ++ quoted rest))

unfoldable pub parse_insert : List Str → Result ParseResult
unfolding stoi wrong_terms quoted
parse_insert (verb ∷ name ∷ id ∷ str ∷ []) = do
  key ← stoi id
  ok (accepted (insert name (record { values = int key ∷ text str ∷ [] })))
parse_insert splits =
    ok (refused (wrong_terms (bytes "INSERT: wanted ") 4 splits ++ (bytes ": " ++ quoted splits)))

unfoldable pub parse_select : List Str → ParseResult
unfolding wrong_terms
parse_select (verb ∷ name ∷ []) = accepted (select name)
parse_select splits = refused (wrong_terms (bytes "SELECT: wanted ") 2 splits)

unfoldable pub parse_truncate : List Str → ParseResult
unfolding wrong_terms
parse_truncate (verb ∷ name ∷ []) = accepted (truncate name)
parse_truncate splits = refused (wrong_terms (bytes "TRUNCATE: wanted ") 2 splits)

-- `ParseBinaryTableCommand`: with no table given, the tables are A and B.
unfoldable pub parse_binary_table_command : (Str → Str → Command) → Str → List Str → ParseResult
unfolding wrong_terms
parse_binary_table_command make name (verb ∷ []) = accepted (make (bytes "A") (bytes "B"))
parse_binary_table_command make name (verb ∷ table1 ∷ table2 ∷ []) = accepted (make table1 table2)
parse_binary_table_command make name splits =
    refused (wrong_terms (name ++ bytes " : wanted ") 3 splits)

-- The chain of tests on `splits[0]`.
unfoldable pub parse_command : Str → List Str → Result ParseResult
unfolding str_eq parse_insert parse_select parse_truncate parse_binary_table_command
parse_command verb splits =
    if str_eq verb (bytes "INSERT")
    then parse_insert splits
    else if str_eq verb (bytes "SELECT")
    then ok (parse_select splits)
    else if str_eq verb (bytes "TRUNCATE")
    then ok (parse_truncate splits)
    else if str_eq verb (bytes "INTERSECT")
    then ok (parse_binary_table_command intersect (bytes "INTERSECT") splits)
    else if str_eq verb (bytes "DIFFERENCE")
    then ok (parse_binary_table_command difference (bytes "DIFFERENCE") splits)
    else ok (refused (bytes "ERR: Unexpected command: " ++ verb))

-- `Handle`
handle_splits : Splits → Result ParseResult
handle_splits (unsplit message) = ok (refused message)
handle_splits (split []) = throw undefined_behaviour
handle_splits (split (verb ∷ rest)) = parse_command verb (verb ∷ rest)

unfoldable pub handle : Str → Result ParseResult
unfolding handle_splits split_string_by_space parse_command
handle line = handle_splits (split_string_by_space line)
