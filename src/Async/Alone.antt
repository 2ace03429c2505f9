-- ===== src/Async/Alone.antt =====
-- What a connection of the asynchronous grouper asks and is told, and what a parser that is alone tells.
use cpp.Prelude.{
  ℕ, ◌+◌, ◌≡◌, ◌≢◌, Bool, true, false, ◌||◌, Option, none, some, List, [], ◌∷◌, ◌==◌, if◌then◌else◌,
  Str,
}
use cpp.Prelude.OrdMap.{find}
use cpp.Bulk.Parser.{Parser}
use cpp.Async.{
  Handles, Reply, replied, handle_line, terminate, Controller, Request, connect, receive,
  disconnect,
}

-- The calls of one connection.
pub data Call : Type 0 where
  line : ℕ → Str → Call
  finish : ℕ → Call

unfoldable pub calls_of : ℕ → List Request → List Call
calls_of id [] = []
calls_of id (connect block_size ∷ rest) = calls_of id rest
calls_of id (receive j now text ∷ rest) =
    let calls = calls_of id rest in if id == j then line now text ∷ calls else calls
calls_of id (disconnect j now ∷ rest) =
    let calls = calls_of id rest in if id == j then finish now ∷ calls else calls

unfoldable pub replies_to : ℕ → List (ℕ × Reply) → List Reply
replies_to id [] = []
replies_to id ((j, r) ∷ rest) = let rs = replies_to id rest in if id == j then r ∷ rs else rs

-- A parser that is alone: what a call leaves of it, and its reply; no parser replies with nothing.
unfoldable pub answer : Handles → Call → Option Parser → Option Parser × Reply
unfolding handle_line terminate
answer handles call none = (none, replied [])
answer handles (line now text) (some p) =
    let (p', r) = handle_line handles now text p in (some p', r)
answer handles (finish now) (some p) =
    let (p', r) = terminate handles now p in (elim r.thrown [ none ↦ none | some x ↦ some p' ], r)

-- The replies of a parser that is alone.
unfoldable pub replies : Handles → List Call → Option Parser → List Reply
unfolding answer
replies handles [] p = []
replies handles (call ∷ calls) p =
    let (p', r) = answer handles call p in r ∷ replies handles calls p'

unfoldable pub is_open : ℕ → List ℕ → Bool
is_open id [] = false
is_open id (j ∷ opened) = id == j || is_open id opened

unfoldable pub close : ℕ → List ℕ → List ℕ
close id [] = []
close id (j ∷ opened) = let rest = close id opened in if id == j then rest else j ∷ rest

-- A connection receives between its connect and its first disconnect only.
abbrev pub IsProper : ℕ → List ℕ → List Request → Type 0
IsProper counter opened [] = Unit
IsProper counter opened (connect block_size ∷ rest) = IsProper (counter + 1) (counter ∷ opened) rest
IsProper counter opened (receive id now text ∷ rest) =
    (is_open id opened ≡ true) × IsProper counter opened rest
IsProper counter opened (disconnect id now ∷ rest) = IsProper counter (close id opened) rest

-- Every open connection is in the storage.
abbrev pub AreStored : List ℕ → Controller → Type 0
AreStored opened c = (id : ℕ) → is_open id opened ≡ true → find id c.storage ≢ none
