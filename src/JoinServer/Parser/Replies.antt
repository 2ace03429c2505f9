-- ===== src/JoinServer/Parser/Replies.antt =====
-- What the parser answers: a command exactly with a status that succeeded.
use cpp.Prelude.{
  ◌≡◌, refl, Bool, true, false, none, some, List, [], ◌∷◌, if◌then◌else◌, Str, bytes, str_eq,
}
use cpp.Prelude.Decimal.{stoi}
use cpp.Prelude.Int.{ℤ}
use cpp.Prelude.Result.{Result, ok, throw, ◌>>=◌}
use cpp.JoinServer.Value.{get_int, int, text}
use cpp.JoinServer.Command.{Command, insert, intersect, difference}
use cpp.JoinServer.Database.Serial.{IsCommand}
use cpp.JoinServer.Parser.{
  ParseResult, Splits, split, unsplit, accepted, parse_insert, parse_select, parse_truncate,
  parse_binary_table_command, parse_command, handle_splits, handle, split_string_by_space,
}
use mathlib.Core.Path.{subst}

-- An answer that the session and the database can rely on.
abbrev pub IsAnswer : ParseResult → Type 0
IsAnswer r = elim r.command [
  | none ↦ r.status.succeeded ≡ false
  | some c ↦ (r.status.succeeded ≡ true) × IsCommand c
]

abbrev Answers : Result ParseResult → Type 0
Answers (ok r) = IsAnswer r
Answers (throw e) = Unit

Answers-if :
    (b : Bool) (m n : Result ParseResult) → Answers m → Answers n → Answers (if b then m else n)
Answers-if true m n a b = a
Answers-if false m n a b = b

accepted-Answers :
    (name str : Str) (key : Result ℤ)
    → Answers (key >>= λ k. ok (accepted (insert name (record { values = int k ∷ text str ∷ [] }))))
unfolding get_int
accepted-Answers name str (ok k) = (refl, (k, refl))
accepted-Answers name str (throw e) = tt

parse_insert-Answers : (splits : List Str) → Answers (parse_insert splits)
unfolding parse_insert
parse_insert-Answers (verb ∷ name ∷ id ∷ str ∷ []) = accepted-Answers name str (stoi id)
parse_insert-Answers _ = refl

parse_select-IsAnswer : (splits : List Str) → IsAnswer (parse_select splits)
unfolding parse_select
parse_select-IsAnswer (verb ∷ name ∷ []) = (refl, tt)
parse_select-IsAnswer _ = refl

parse_truncate-IsAnswer : (splits : List Str) → IsAnswer (parse_truncate splits)
unfolding parse_truncate
parse_truncate-IsAnswer (verb ∷ name ∷ []) = (refl, tt)
parse_truncate-IsAnswer _ = refl

-- A command that takes two table names.
abbrev IsBinary : (Str → Str → Command) → Type 0
IsBinary make = (a b : Str) → IsCommand (make a b)

parse_binary-IsAnswer :
    (make : Str → Str → Command) (name : Str) (splits : List Str)
    → IsBinary make
    → IsAnswer (parse_binary_table_command make name splits)
unfolding parse_binary_table_command
parse_binary-IsAnswer make name (verb ∷ []) h = (refl, h _ _)
parse_binary-IsAnswer make name (verb ∷ t1 ∷ t2 ∷ []) h = (refl, h t1 t2)
parse_binary-IsAnswer make name _ h = refl

parse_command-Answers : (verb : Str) (splits : List Str) → Answers (parse_command verb splits)
unfolding parse_command
parse_command-Answers verb splits =
    Answers-if (str_eq verb (bytes "INSERT")) _ _ (parse_insert-Answers splits) (
      Answers-if (str_eq verb (bytes "SELECT")) _ _ (parse_select-IsAnswer splits) (
        Answers-if (str_eq verb (bytes "TRUNCATE")) _ _ (parse_truncate-IsAnswer splits) (
          Answers-if (str_eq verb (bytes "INTERSECT")) _ _
            (parse_binary-IsAnswer intersect (bytes "INTERSECT") splits λ a b. tt)
            (Answers-if (str_eq verb (bytes "DIFFERENCE")) _ _
              (parse_binary-IsAnswer difference (bytes "DIFFERENCE") splits λ a b. tt) refl))))

handle_splits-Answers : (s : Splits) → Answers (handle_splits s)
unfolding handle_splits
handle_splits-Answers (unsplit message) = refl
handle_splits-Answers (split []) = tt
handle_splits-Answers (split (verb ∷ rest)) = parse_command-Answers verb (verb ∷ rest)

-- Whatever the line, when the parser does not throw it answers either with a status that succeeded
-- and a command that the database can run, or with a status that failed and no command.
pub handle-IsAnswer : (line : Str) (r : ParseResult) → handle line ≡ ok r → IsAnswer r
unfolding handle
handle-IsAnswer line r e = subst Answers e (handle_splits-Answers (split_string_by_space line))
