-- ===== src/BulkServer/Controller/Conservation.antt =====
-- No command is lost or printed twice, whatever the order of the calls of all connections.
use mathlib.Core.Path.{subst}
use cpp.Prelude.{
  inl, inr, ℕ, ◌+◌, ◌≤◌, ◌<◌, ◌≡◌, refl, Option, none, some, Option-cases, List, [], ◌∷◌, arith,
  Str,
}
use cpp.Prelude.Int.{u64_mod}
use cpp.Prelude.OrdMap.{OrdMap, find, find-assign}
use cpp.Prelude.Result.{ok, >>=-eq-ok, Result-cases}
use cpp.Bulk.State.{Command, Event, end_of_file, Block}
use cpp.BulkServer.Accumulator.{Handles}
use cpp.BulkServer.State.{State, normal, dynamic, handle_event}
use cpp.BulkServer.Controller.{
  Parser, Controller, event_of, erase, replace, make_parser, handle_parser_event, handle_line,
  remove_parser, Request, connect, receive, disconnect, handle_request,
}
use cpp.BulkServer.Controller.Counting.{
  count, count_blocks, own, pending, arrived_event, arrived, count-handle_event, held-replace,
  held-erase, held-assign_new,
}

replace_keeps_absent :
    (id k : ℕ) (q : Parser) (m : OrdMap Parser) → find k m ≡ none → find k (replace id q m) ≡ none
unfolding find replace
replace_keeps_absent id k q [] h = refl
replace_keeps_absent id k q ((j, r) ∷ m) h = ground (arith, h, replace_keeps_absent id k q m)

erase_keeps_absent : (id k : ℕ) (m : OrdMap Parser) → find k m ≡ none → find k (erase id m) ≡ none
unfolding find erase
erase_keeps_absent id k [] h = refl
erase_keeps_absent id k ((j, r) ∷ m) h = ground (arith, h, erase_keeps_absent id k m)

-- The ids from the counter on are not used yet.
abbrev pub Fresh : Controller → Type 0
Fresh c = (k : ℕ) → c.parser_counter ≤ k → find k c.parsers ≡ none

own_of : Option Parser → List Command
own_of none = []
own_of (some p) = own p.state

-- What a request throws away: the open block of a connection that is closed.
unfoldable pub lost : Str → Request → Controller → ℕ
unfolding count own_of
lost v (disconnect id) c = count v (own_of (find id c.parsers))
lost v _ c = 0

-- A request that returns.
abbrev pub Conserves : Str → Request → Controller → Controller → List Block → Type 0
Conserves v r c c' blocks =
    (pending v c + arrived v r ≡ count_blocks v blocks + pending v c' + lost v r c)
    × Fresh c'
    × (c'.parser_counter ≤ c.parser_counter + 1)

handle_request-connect :
    (v : Str) (n : ℕ) (c : Controller)
    → Fresh c
    → c.parser_counter + 1 < u64_mod
    → Conserves v (connect n) c (make_parser n c).1 []
unfolding make_parser arrived count_blocks lost count
handle_request-connect v n c f b = (
  ground (
    arith,
    held-assign_new v c.parser_counter (record { block_size = n; state = normal }) c.parsers
        (f c.parser_counter (omega arith)),
  ),
  (λ k l. ground (
    arith,
    find-assign k c.parser_counter (record { block_size = n; state = normal }) c.parsers,
    f k,
  )),
  omega arith,
)

handled-parser_event :
    (handles : Handles) (id : ℕ) (e : Event) (c : Controller) (p : Parser)
    (r : State × List Command × List Block) (c' : Controller) (blocks : List Block)
    → find id c.parsers ≡ some p
    → handle_event handles p.block_size e p.state c.shared ≡ ok r
    → handle_parser_event handles id e c ≡ ok (c', blocks)
    → (c'.shared ≡ r.1)
      × (c'.parsers ≡ replace id (record p { state = r.0 }) c.parsers)
      × (c'.parser_counter ≡ c.parser_counter)
      × (blocks ≡ r.2)
unfolding handle_parser_event
handled-parser_event handles id e c p r c' blocks g i h = ground (arith, g, i, h)

handle_request-event :
    (v : Str) (handles : Handles) (id : ℕ) (e : Event) (c c' : Controller) (blocks : List Block)
    → Fresh c
    → handle_parser_event handles id e c ≡ ok (c', blocks)
    → (pending v c + arrived_event v e ≡ count_blocks v blocks + pending v c')
      × Fresh c'
      × (c'.parser_counter ≤ c.parser_counter + 1)
unfolding handle_parser_event
handle_request-event v handles id e c c' blocks f h = elim (Option-cases (find id c.parsers)) [
  | inl g ↦ absurd (ground (arith, g, h))
  | inr (p, g) ↦ elim (Result-cases (handle_event handles p.block_size e p.state c.shared)) [
    | inl (r, i) ↦
        let k = handled-parser_event handles id e c p r c' blocks g i h in
        (
          ground (
            arith,
            k,
            held-replace v id p (record p { state = r.0 }) c.parsers g,
            count-handle_event v handles p.block_size e p.state r.0 c.shared r.1 r.2 i,
          ),
          (λ j l. ground (
            arith,
            k,
            f j (omega (arith, k, l)),
            replace_keeps_absent id j (record p { state = r.0 }) c.parsers,
          )),
          ground (arith, k),
        )
    | inr (x, i) ↦ absurd (ground (arith, g, i, h))
  ]
]

handle_request-receive :
    (v : Str) (handles : Handles) (id now : ℕ) (line : Str) (c c' : Controller)
    (blocks : List Block)
    → Fresh c
    → handle_line handles id now line c ≡ ok (c', blocks)
    → Conserves v (receive id now line) c c' blocks
unfolding handle_line arrived lost
handle_request-receive v handles id now line c c' blocks f h =
    let (e, i, j) = >>=-eq-ok (event_of now line) _ h in
    let (p, g, l) = handle_request-event v handles id e c c' blocks f j in
    (ground (arith, i, p), g, l)

removed :
    (handles : Handles) (id : ℕ) (c : Controller) (p : Parser)
    (r : State × List Command × List Block) (c' : Controller) (blocks : List Block)
    → find id c.parsers ≡ some p
    → handle_event handles p.block_size end_of_file p.state c.shared ≡ ok r
    → remove_parser handles id c ≡ ok (c', blocks)
    → (c'.shared ≡ r.1)
      × (c'.parsers ≡ erase id c.parsers)
      × (c'.parser_counter ≡ c.parser_counter)
      × (blocks ≡ r.2)
unfolding remove_parser
removed handles id c p r c' blocks g i h = ground (arith, g, i, h)

absent :
    (handles : Handles) (id : ℕ) (c c' : Controller) (blocks : List Block)
    → find id c.parsers ≡ none
    → remove_parser handles id c ≡ ok (c', blocks)
    → (c'.shared ≡ c.shared)
      × (c'.parsers ≡ c.parsers)
      × (c'.parser_counter ≡ c.parser_counter)
      × (blocks ≡ [])
unfolding remove_parser
absent handles id c c' blocks g h = ground (arith, g, h)

-- The end of a connection changes nothing in the buffers, and prints nothing.
end-handle_event :
    (handles : Handles) (n : ℕ) (s : State) (shared : List Command)
    → handle_event handles n end_of_file s shared ≡ ok (s, shared, [])
unfolding handle_event
end-handle_event handles n normal shared = refl
end-handle_event handles n (dynamic l b) shared = refl

handle_request-disconnect :
    (v : Str) (handles : Handles) (id : ℕ) (c c' : Controller) (blocks : List Block)
    → Fresh c
    → remove_parser handles id c ≡ ok (c', blocks)
    → Conserves v (disconnect id) c c' blocks
unfolding arrived lost own_of count_blocks count
handle_request-disconnect v handles id c c' blocks f h = elim (Option-cases (find id c.parsers)) [
  | inl g ↦
      let k = absent handles id c c' blocks g h in
      (
        ground (arith, g, k),
        (λ j l. ground (arith, k, f j (omega (arith, k, l)))),
        omega (arith, k),
      )
  | inr (p, g) ↦
      let k =
        removed handles id c p (p.state, c.shared, []) c' blocks g
          (end-handle_event handles p.block_size p.state c.shared) h in
      (
        ground (arith, g, k, held-erase v id p c.parsers g),
        (λ j l. ground (arith, k, f j (omega (arith, k, l)), erase_keeps_absent id j c.parsers)),
        omega (arith, k),
      )
]

same :
    (v : Str) (r : Request) (c c' d : Controller) (blocks bs : List Block)
    → d ≡ c'
    → bs ≡ blocks
    → Conserves v r c d bs
    → Conserves v r c c' blocks
same v r c c' d blocks bs p q h =
    subst (λ x. Conserves v r c x blocks) p (subst (λ x. Conserves v r c d x) q h)

pub handle_request-Conserves :
    (v : Str) (handles : Handles) (r : Request) (c c' : Controller) (blocks : List Block)
    → Fresh c
    → c.parser_counter + 1 < u64_mod
    → handle_request handles r c ≡ ok (c', blocks)
    → Conserves v r c c' blocks
unfolding handle_request
handle_request-Conserves v handles (connect n) c c' blocks f b h =
    same v (connect n) c c' (make_parser n c).1 blocks [] (ground (arith, h)) (ground (arith, h))
      (handle_request-connect v n c f b)
handle_request-Conserves v handles (receive id now line) c c' blocks f b h =
    handle_request-receive v handles id now line c c' blocks f h
handle_request-Conserves v handles (disconnect id) c c' blocks f b h =
    handle_request-disconnect v handles id c c' blocks f h
