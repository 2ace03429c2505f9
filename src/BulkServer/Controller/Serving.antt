-- ===== src/BulkServer/Controller/Serving.antt =====
-- All connections together, over any sequence of their calls.
use cpp.Prelude.{
  inl, inr, ℕ, ◌+◌, ◌<◌, ◌≡◌, ◌≢◌, refl, some, true, Bool-cases, List, [], ◌∷◌, ◌++◌, arith, ◌==◌,
  length, Str, bytes, str_eq,
}
use cpp.Prelude.Int.{u64_mod}
use cpp.Prelude.OrdMap.{OrdMap, find}
use cpp.Prelude.Result.{ok, throw, >>=-eq-ok}
use cpp.Bulk.State.{Command, Event, command, block_start, block_end, end_of_file, Block, decrement}
use cpp.BulkServer.Accumulator.{Handles}
use cpp.BulkServer.State.{State, normal, dynamic, handle_event}
use cpp.BulkServer.Controller.{
  Parser, Controller, event_of, replace, handle_parser_event, handle_line, Request, handle_request,
  serve,
}
use cpp.BulkServer.Controller.Counting.{count_blocks, pending, arrived}
use cpp.BulkServer.Controller.Conservation.{lost, Fresh, handle_request-Conserves}

-- What all requests bring.
unfoldable pub arrived_all : Str → List Request → ℕ
unfolding arrived
arrived_all v [] = 0
arrived_all v (r ∷ rest) = arrived v r + arrived_all v rest

-- What all requests of a run throw away.
unfoldable pub lost_all : Handles → Str → List Request → Controller → ℕ
unfolding lost
lost_all handles v [] c = 0
lost_all handles v (r ∷ rest) c =
    lost v r c
    + (elim (handle_request handles r c) [ ok s ↦ lost_all handles v rest s.0 | throw x ↦ 0 ])

count_blocks-append :
    (v : Str) (xs ys : List Block)
    → count_blocks v (xs ++ ys) ≡ count_blocks v xs + count_blocks v ys
unfolding count_blocks
count_blocks-append v [] ys = omega arith
count_blocks-append v (b ∷ xs) ys = omega (arith, count_blocks-append v xs ys)

serve-cons :
    (handles : Handles) (r : Request) (rest : List Request) (c last : Controller) (all : List Block)
    → serve handles (r ∷ rest) c ≡ ok (last, all)
    → (c' : Controller) × (blocks : List Block) × (more : List Block) × (handle_request handles r c
        ≡ ok (c', blocks))
      × (serve handles rest c' ≡ ok (last, more))
      × (all ≡ blocks ++ more)
unfolding serve
serve-cons handles r rest c last all h =
    let (s, f, g) = >>=-eq-ok (handle_request handles r c) _ h in
    let (t, f', g') = >>=-eq-ok (serve handles rest s.0) _ g in
    (s.0, s.1, t.1, f, ground (arith, f', g'), ground (arith, g'))

-- Whatever the order of the requests of all connections, when the ids from the counter on are not
-- used, the counter cannot wrap around and the requests are all served, each value is printed,
-- still pending, or thrown away with a connection that is closed, as often as it was pending or
-- arrived.
pub serve-conserves :
    (v : Str) (handles : Handles) (requests : List Request) (c last : Controller)
    (blocks : List Block)
    → Fresh c
    → c.parser_counter + length requests < u64_mod
    → serve handles requests c ≡ ok (last, blocks)
    → pending v c + arrived_all v requests
      ≡ count_blocks v blocks + pending v last + lost_all handles v requests c
unfolding arrived_all lost_all
serve-conserves v handles [] c last blocks f b h = unfold serve count_blocks in ground (arith, h)
serve-conserves v handles (r ∷ rest) c last blocks f b h =
    let (c', bs, more, g, k, p) = serve-cons handles r rest c last blocks h in
    let (i, f', l) = handle_request-Conserves v handles r c c' bs f (omega arith) g in
    ground (
      arith,
      g,
      p,
      i,
      count_blocks-append v bs more,
      serve-conserves v handles rest c' last more f' (omega arith) k,
    )

find-replace_other :
    (id j : ℕ) (q : Parser) (m : OrdMap Parser) → j ≢ id → find j (replace id q m) ≡ find j m
unfolding find replace
find-replace_other id j q [] h = refl
find-replace_other id j q ((k, r) ∷ m) h = ground (arith, h, find-replace_other id j q m h)

inside-handle_event :
    (handles : Handles) (n level : ℕ) (e : Event) (buffer shared : List Command)
    → ((b : Block) → handles b ≡ true)
    → (s : State) × (blocks : List Block) × (handle_event handles n e (dynamic level buffer) shared
        ≡ ok (s, shared, blocks))
unfolding handle_event
inside-handle_event handles n level (command c) buffer shared t = (_, _, refl)
inside-handle_event handles n level block_start buffer shared t = (_, _, refl)
inside-handle_event handles n level block_end [] shared t =
    elim (Bool-cases (decrement level == 0)) [
      | inl z ↦ (normal, [], ground (arith, z))
      | inr z ↦ (dynamic (decrement level) [], [], ground (arith, z))
    ]
inside-handle_event handles n level block_end (c ∷ buffer) shared t =
    elim (Bool-cases (decrement level == 0)) [
      | inl z ↦ (normal, (c ∷ buffer) ∷ [], ground (arith, z, t (c ∷ buffer)))
      | inr z ↦ (dynamic (decrement level) (c ∷ buffer), [], ground (arith, z))
    ]
inside-handle_event handles n level end_of_file buffer shared t = (_, _, refl)

event_of-returns : (now x : ℕ) (line : Str) → (e : Event) × (event_of now (x ∷ line) ≡ ok e)
unfolding event_of
event_of-returns now x line = elim (Bool-cases (str_eq (x ∷ line) (bytes "{"))) [
  | inl h ↦ (block_start, ground (arith, h))
  | inr h ↦ elim (Bool-cases (str_eq (x ∷ line) (bytes "}"))) [
    | inl g ↦ (block_end, ground (arith, h, g))
    | inr g ↦ (command (record { value = x ∷ line; registration_time = now }), ground (arith, h, g))
  ]
]

-- A line that is not empty, of a connection inside a block, is handled when the printer has no
-- error; the buffer that all connections share, and every other connection, stay as they are.
handle_line-inside :
    (handles : Handles) (id now level x : ℕ) (line : Str) (buffer : List Command) (p : Parser)
    (c : Controller)
    → ((b : Block) → handles b ≡ true)
    → find id c.parsers ≡ some p
    → p.state ≡ dynamic level buffer
    → (c' : Controller) × (blocks : List Block) × (handle_line handles id now (x ∷ line) c
        ≡ ok (c', blocks))
      × (c'.shared ≡ c.shared)
      × ((j : ℕ) → j ≢ id → find j c'.parsers ≡ find j c.parsers)
unfolding handle_line handle_parser_event
handle_line-inside handles id now level x line buffer p c t h q =
    let (e, i) = event_of-returns now x line in
    let (s, blocks, g) = inside-handle_event handles p.block_size level e buffer c.shared t in
    (
      record c { parsers = replace id (record p { state = s }) c.parsers },
      blocks,
      ground (arith, i, h, q, g),
      refl,
      λ j d. find-replace_other id j (record p { state = s }) c.parsers d,
    )
