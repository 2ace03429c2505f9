-- ===== src/Async/Runs.antt =====
-- A connection of the asynchronous grouper prints what the program of 07_bulk prints.
use mathlib.Core.List.{append_assoc, append-nil}
use cpp.Prelude.{
  ℕ, ◌+◌, ◌<◌, ◌≡◌, refl, ap, sym, ◌∙◌, true, some, List, [], ◌∷◌, ◌++◌, arith, length, Str,
}
use cpp.Prelude.Int.{u64_mod}
use cpp.Prelude.OrdMap.{find}
use cpp.Prelude.Result.{Result, ok, throw, ◌>>=◌, >>=-eq-ok}
use cpp.Bulk.State.{
  Event, command, block_start, block_end, end_of_file, State, normal, dynamic, Block, decrement,
}
use cpp.Bulk.State as State
use cpp.Bulk.Printer.{Output, main_printers, handle_blocks}
use cpp.Bulk.Parser.{Parser, make_parser, event_of, print_lines, run}
use cpp.Bulk.Parser.Printing.{handle_lines, handle_blocks-append, print_lines-blocks}
use cpp.Bulk.Parser as Program
use cpp.Async.{
  Handles, Reply, replied, failed, hand_over, handle_event, handle_parser_event, handle_line,
  terminate, Controller, Request, serve,
}
use cpp.Async.Alone.{Call, line, finish, calls_of, replies_to, answer, replies, IsProper, AreStored}
use cpp.Async.Isolation.{serve-replies}

-- What a call of the program leaves, as an outcome.
abbrev settled : {S : Type 0} → S → Result (S × List Block) → S × Reply
settled s (ok (s', blocks)) = (s', replied blocks)
settled s (throw x) = (s, failed x)

abbrev pub HandlesAll : Handles → Type 0
HandlesAll handles = (b : Block) → handles b ≡ true

handle_event-settled :
    (handles : Handles) (n now : ℕ) (e : Event) (s : State)
    → HandlesAll handles
    → handle_event handles n now e s ≡ settled s (State.handle_event n now e s)
unfolding handle_event hand_over State.handle_event
handle_event-settled handles n now (command c) (normal cs) h =
    ground (arith, h (cs ++ State.stamped now c ∷ []))
handle_event-settled handles n now block_start (normal []) h = refl
handle_event-settled handles n now block_start (normal (c ∷ cs)) h = ground (arith, h (c ∷ cs))
handle_event-settled handles n now block_end (normal cs) h = refl
handle_event-settled handles n now end_of_file (normal []) h = refl
handle_event-settled handles n now end_of_file (normal (c ∷ cs)) h = ground (arith, h (c ∷ cs))
handle_event-settled handles n now (command c) (dynamic l cs) h = refl
handle_event-settled handles n now block_start (dynamic l cs) h = refl
handle_event-settled handles n now block_end (dynamic l cs) h = ground (arith, h cs)
handle_event-settled handles n now end_of_file (dynamic l cs) h = refl

parser-settled :
    (p : Parser) (r : Result (State × List Block))
    → ◌≡◌ {A = Parser × Reply}
        (record p { state = (settled p.state r).0 }, (settled p.state r).1)
        (settled p (do (s, blocks) ← r; ok (record p { state = s }, blocks)))
parser-settled p (ok x) = refl
parser-settled p (throw x) = refl

handle_parser_event-settled :
    (handles : Handles) (now : ℕ) (e : Event) (p : Parser)
    → HandlesAll handles
    → handle_parser_event handles now e p
      ≡ settled p (do
        (s, blocks) ← State.handle_event p.block_size now e p.state
        ok (record p { state = s }, blocks))
unfolding handle_parser_event
handle_parser_event-settled handles now e p h =
    rw (handle_event-settled handles p.block_size now e p.state h)
      (parser-settled p (State.handle_event p.block_size now e p.state))

line_settled :
    (handles : Handles) (now : ℕ) (p : Parser) (m : Result Event)
    → HandlesAll handles
    → ◌≡◌ {A = Parser × Reply}
        (elim m [ throw x ↦ (p, failed x) | ok e ↦ handle_parser_event handles now e p ])
        (settled p (do
          e ← m
          (s, blocks) ← State.handle_event p.block_size now e p.state
          ok (record p { state = s }, blocks)))
line_settled handles now p (throw x) h = refl
line_settled handles now p (ok e) h = handle_parser_event-settled handles now e p h

handle_line-settled :
    (handles : Handles) (now : ℕ) (text : Str) (p : Parser)
    → HandlesAll handles
    → handle_line handles now text p ≡ settled p (Program.handle_line now text p)
unfolding handle_line Program.handle_line
handle_line-settled handles now text p h = line_settled handles now p (event_of now text) h

-- The calls of a connection that sends lines and ends.
abbrev pub calls_for : List (ℕ × Str) → ℕ → List Call
calls_for [] end = finish end ∷ []
calls_for ((now, text) ∷ lines) end = line now text ∷ calls_for lines end

-- All that replies have printed, in its order.
unfoldable pub printed_by : List Reply → List Block
printed_by [] = []
printed_by (r ∷ rest) = r.printed ++ printed_by rest

finish-printed :
    (handles : Handles) (end : ℕ) (p : Parser) (blocks : List Block)
    → HandlesAll handles
    → Program.terminate end p ≡ ok blocks
    → printed_by (replies handles (finish end ∷ []) (some p)) ≡ blocks
unfolding replies answer terminate handle_parser_event Program.terminate printed_by
finish-printed handles end p blocks h e =
    let g = handle_event-settled handles p.block_size end end_of_file p.state h in
    let (s, k, l) = >>=-eq-ok (State.handle_event p.block_size end end_of_file p.state) _ e in
    let w : handle_event handles p.block_size end end_of_file p.state ≡ (s.0, replied s.1) =
      g ∙ ap (settled p.state) k in
    rw (w) (ground (arith, l, append-nil s.1))

replies-printed :
    (handles : Handles) (lines : List (ℕ × Str)) (end : ℕ) (p q : Parser) (blocks more : List Block)
    → HandlesAll handles
    → handle_lines lines p ≡ ok (q, blocks)
    → Program.terminate end q ≡ ok more
    → printed_by (replies handles (calls_for lines end) (some p)) ≡ blocks ++ more
unfolding handle_lines replies answer printed_by
replies-printed handles [] end p q blocks more h e t =
    let w = finish-printed handles end p more h (ground (arith, e, t)) in ground (arith, w, e)
replies-printed handles ((now, text) ∷ lines) end p q blocks more h e t =
    let (s, k, l) = >>=-eq-ok (Program.handle_line now text p) _ e in
    let (s', k', l') = >>=-eq-ok (handle_lines lines s.0) _ l in
    let g : handle_line handles now text p ≡ (s.0, replied s.1) =
      handle_line-settled handles now text p h ∙ ap (settled p) k in
    let r = replies-printed handles lines end s.0 s'.0 s'.1 more h k' (ground (arith, l', t)) in
    let b : s.1 ++ s'.1 ≡ blocks = ground (arith, l') in
    rw (g) (ap (λ x. s.1 ++ x) r ∙ sym (append_assoc s.1 s'.1 more) ∙ ap (λ x. x ++ more) b)

-- When the printer has no error, the storage holds the open connections, every connection receives while
-- it is open, the counter cannot wrap around, a connection was made before and has a fresh parser in the
-- storage, and it sends lines on which the program of 07_bulk returns with the same block size, then the
-- blocks printed for the connection, whatever the other connections do, are blocks of which the printers
-- of that program write what the program writes.
pub serve-run :
    (handles : Handles) (requests : List Request) (c : Controller) (opened : List ℕ)
    (id block_size end : ℕ) (lines : List (ℕ × Str)) (out : List Output)
    → HandlesAll handles
    → AreStored opened c
    → IsProper c.parser_counter opened requests
    → c.parser_counter + length requests < u64_mod
    → id < c.parser_counter
    → find id c.storage ≡ some (make_parser block_size)
    → calls_of id requests ≡ calls_for lines end
    → run block_size lines end ≡ ok out
    → (last : Controller) × (all : List (ℕ × Reply)) × (serve handles requests c ≡ ok (last, all))
      × (handle_blocks main_printers (printed_by (replies_to id all)) ≡ ok out)
unfolding run
serve-run handles requests c opened id block_size end lines out h a p l k f g e =
    let fresh = make_parser block_size in
    let (last, all, s, w) = serve-replies handles requests c opened id a p l k in
    let ((q, o1), e1, e2) = >>=-eq-ok (print_lines main_printers lines fresh) _ e in
    let (more, e3, e4) = >>=-eq-ok (Program.terminate end q) _ e2 in
    let (o2, e5, e6) = >>=-eq-ok (handle_blocks main_printers more) _ e4 in
    let (b, e7, e8) = print_lines-blocks main_printers lines fresh q o1 e1 in
    let r = replies-printed handles lines end fresh q b more h e7 e3 in
    let v : replies_to id all ≡ replies handles (calls_for lines end) (some fresh) =
      ground (arith, w, f, g) in
    (last, all, s, rw (v, r) (handle_blocks-append main_printers b more o1 o2 e8 e5 ∙ e6))
