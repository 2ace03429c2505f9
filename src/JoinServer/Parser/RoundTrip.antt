-- ===== src/JoinServer/Parser/RoundTrip.antt =====
-- A command that is written as a request line is parsed back.
use mathlib.Core.List.{append_assoc, append-nil}
use cpp.Prelude.{ℕ, suc, ◌≡◌, refl, ap, ◌∙◌, true, false, List, [], ◌∷◌, ◌++◌, arith, Str, bytes}
use cpp.Prelude.Decimal.{
  stoi, to_string, show_nat, is_space, AllDigits, starts_with_digit, stoi-to_string,
  show_nat-AllDigits, show_nat-starts_with_digit,
}
use cpp.Prelude.Int.{ℤ, pos, negsuc, InInt}
use cpp.Prelude.Result.{Exception, ok, throw}
use cpp.JoinServer.Value.{Value, int, text, null}
use cpp.JoinServer.Command.{Command, insert, select, truncate, intersect, difference}
use cpp.JoinServer.Parser.{
  split, keep_word, words_from, newline, ends_with_newline, split_string_by_space, accepted,
  parse_command, handle,
}

abbrev pub NoSpaces : Str → Type 0
NoSpaces [] = Unit
NoSpaces (c ∷ rest) = (is_space c ≡ false) × NoSpaces rest

-- A token: not empty, and without spaces.
abbrev pub IsWord : Str → Type 0
IsWord [] = ⊥
IsWord (c ∷ rest) = NoSpaces (c ∷ rest)

abbrev pub AllWords : List Str → Type 0
AllWords [] = Unit
AllWords (w ∷ ws) = IsWord w × AllWords ws

-- The words with a space between two, and the final newline.
unfoldable pub line_of : Str → List Str → Str
line_of w [] = w ++ newline ∷ []
line_of w (v ∷ ws) = w ++ 32 ∷ line_of v ws

words_from-word :
    (word w : Str) (c : ℕ) (rest : Str)
    → NoSpaces w
    → is_space c ≡ true
    → words_from word (w ++ c ∷ rest) ≡ keep_word (word ++ w) (words_from [] rest)
unfolding words_from
words_from-word word [] c rest n h = ground (arith, append-nil word)
words_from-word word (d ∷ w) c rest n h =
    ground
      (arith, n.0, words_from-word (word ++ d ∷ []) w c rest n.1 h, append_assoc word (d ∷ []) w)

words_from-line_of :
    (w : Str) (ws : List Str) → IsWord w → AllWords ws → words_from [] (line_of w ws) ≡ w ∷ ws
unfolding line_of
words_from-line_of [] ws n a = absurd n
words_from-line_of (c ∷ w) [] n a =
    words_from-word [] (c ∷ w) newline [] n (unfold is_space in refl) ∙ (unfold words_from in refl)
words_from-line_of (c ∷ w) (v ∷ ws) n a =
    words_from-word [] (c ∷ w) 32 (line_of v ws) n (unfold is_space in refl)
    ∙ ap (λ more. (c ∷ w) ∷ more) (words_from-line_of v ws a.0 a.1)

ends_with_newline-append :
    (xs : Str) (c : ℕ) (ys : Str) → ends_with_newline (xs ++ c ∷ ys) ≡ ends_with_newline (c ∷ ys)
unfolding ends_with_newline
ends_with_newline-append [] c ys = refl
ends_with_newline-append (x ∷ []) c ys = refl
ends_with_newline-append (x ∷ y ∷ xs) c ys = ends_with_newline-append (y ∷ xs) c ys

ends_with_newline-cons :
    (c : ℕ) (w v : Str) (ws : List Str)
    → ends_with_newline (c ∷ line_of v ws) ≡ ends_with_newline (line_of v ws)
unfolding ends_with_newline line_of
ends_with_newline-cons c w [] [] = refl
ends_with_newline-cons c w (d ∷ v) [] = refl
ends_with_newline-cons c w [] (u ∷ ws) = refl
ends_with_newline-cons c w (d ∷ v) (u ∷ ws) = refl

ends_with_newline-line_of : (w : Str) (ws : List Str) → ends_with_newline (line_of w ws) ≡ true
unfolding line_of
ends_with_newline-line_of w [] =
    ends_with_newline-append w newline [] ∙ (unfold ends_with_newline in refl)
ends_with_newline-line_of w (v ∷ ws) =
    ends_with_newline-append w 32 (line_of v ws)
    ∙ (ends_with_newline-cons 32 w v ws ∙ ends_with_newline-line_of v ws)

split-line_of :
    (w : Str) (ws : List Str)
    → IsWord w
    → AllWords ws
    → split_string_by_space (line_of w ws) ≡ split (w ∷ ws)
unfolding split_string_by_space
split-line_of w ws n a =
    go (line_of w ws) (words_from-line_of w ws n a) (ends_with_newline-line_of w ws)
  where
    go :
        (line : Str)
        → words_from [] line ≡ w ∷ ws
        → ends_with_newline line ≡ true
        → split_string_by_space line ≡ split (w ∷ ws)
    go [] e h = ground (arith, e)
    go (c ∷ line) e h = ground (arith, e, h)

handle-line_of :
    (w : Str) (ws : List Str)
    → IsWord w
    → AllWords ws
    → handle (line_of w ws) ≡ parse_command w (w ∷ ws)
unfolding handle
handle-line_of w ws n a = rw (split-line_of w ws n a)

-- The words of the request for a command.
cells : List Value → List Str
cells [] = []
cells (int k ∷ rest) = to_string k ∷ cells rest
cells (text s ∷ rest) = s ∷ cells rest
cells (null ∷ rest) = [] ∷ cells rest

unfoldable pub request : Command → Str
unfolding cells
request (insert name row) = line_of (bytes "INSERT") (name ∷ cells row.values)
request (select name) = line_of (bytes "SELECT") (name ∷ [])
request (truncate name) = line_of (bytes "TRUNCATE") (name ∷ [])
request (intersect name1 name2) = line_of (bytes "INTERSECT") (name1 ∷ name2 ∷ [])
request (difference name1 name2) = line_of (bytes "DIFFERENCE") (name1 ∷ name2 ∷ [])

-- The commands that a request line can hold: names and texts are words, and a row is a key that is
-- an `int` and a text.
abbrev pub IsRequest : Command → Type 0
IsRequest (insert name row) =
    IsWord name
    × ((key : ℤ) × (str : Str) × InInt key
        × IsWord str
        × (row ≡ record { values = int key ∷ text str ∷ [] }))
IsRequest (select name) = IsWord name
IsRequest (truncate name) = IsWord name
IsRequest (intersect name1 name2) = IsWord name1 × IsWord name2
IsRequest (difference name1 name2) = IsWord name1 × IsWord name2

AllDigits-NoSpaces : (s : Str) → AllDigits s → NoSpaces s
unfolding is_space
AllDigits-NoSpaces [] a = tt
AllDigits-NoSpaces (c ∷ s) a = (ground (arith, a.0), AllDigits-NoSpaces s a.1)

IsWord-digits : (s : Str) → AllDigits s → starts_with_digit s ≡ true → IsWord s
IsWord-digits [] a h = absurd (cc h)
IsWord-digits (c ∷ s) a h = AllDigits-NoSpaces (c ∷ s) a

to_string-IsWord : (v : ℤ) → IsWord (to_string v)
unfolding to_string is_space
to_string-IsWord (pos n) =
    IsWord-digits (show_nat n) (show_nat-AllDigits n) (show_nat-starts_with_digit n)
to_string-IsWord (negsuc n) =
    (refl, AllDigits-NoSpaces (show_nat (suc n)) (show_nat-AllDigits (suc n)))

handle-insert :
    (name str : Str) (key : ℤ)
    → IsWord name
    → IsWord str
    → InInt key
    → handle (line_of (bytes "INSERT") (name ∷ to_string key ∷ str ∷ []))
      ≡ ok (accepted (insert name (record { values = int key ∷ text str ∷ [] })))
handle-insert name str key n s i =
    handle-line_of (bytes "INSERT") (name ∷ to_string key ∷ str ∷ [])
      (unfold is_space in (refl, (refl, (refl, (refl, (refl, (refl, tt)))))))
      (n, (to_string-IsWord key, (s, tt)))
    ∙ (unfold parse_command in rw (stoi-to_string key i))

-- A request line written for a command, whose names and text are words and whose key is an int, is
-- parsed back into that command.
pub handle-request : (c : Command) → IsRequest c → handle (request c) ≡ ok (accepted c)
unfolding request
handle-request (insert name row) (n, (key, str, i, s, e)) = rw e (handle-insert name str key n s i)
handle-request (select name) n =
    handle-line_of (bytes "SELECT") (name ∷ [])
      (unfold is_space in (refl, (refl, (refl, (refl, (refl, (refl, tt))))))) (n, tt)
    ∙ (unfold parse_command in refl)
handle-request (truncate name) n =
    handle-line_of (bytes "TRUNCATE") (name ∷ [])
      (unfold is_space in (refl, (refl, (refl, (refl, (refl, (refl, (refl, (refl, tt)))))))))
      (n, tt)
    ∙ (unfold parse_command in refl)
handle-request (intersect name1 name2) (n, m) =
    handle-line_of (bytes "INTERSECT") (name1 ∷ name2 ∷ [])
      (unfold is_space in
        (refl, (refl, (refl, (refl, (refl, (refl, (refl, (refl, (refl, tt))))))))))
      (n, (m, tt))
    ∙ (unfold parse_command in refl)
handle-request (difference name1 name2) (n, m) =
    handle-line_of (bytes "DIFFERENCE") (name1 ∷ name2 ∷ [])
      (unfold is_space in
        (refl, (refl, (refl, (refl, (refl, (refl, (refl, (refl, (refl, (refl, tt)))))))))))
      (n, (m, tt))
    ∙ (unfold parse_command in refl)

-- An INSERT line with four words throws whatever `stoi` throws on the third: nothing catches it.
handle-bad_key :
    (name id str : Str) (e : Exception)
    → IsWord name
    → IsWord id
    → IsWord str
    → stoi id ≡ throw e
    → handle (line_of (bytes "INSERT") (name ∷ id ∷ str ∷ [])) ≡ throw e
handle-bad_key name id str e n i s h =
    handle-line_of (bytes "INSERT") (name ∷ id ∷ str ∷ [])
      (unfold is_space in (refl, (refl, (refl, (refl, (refl, (refl, tt))))))) (n, (i, (s, tt)))
    ∙ (unfold parse_command in rw h)
