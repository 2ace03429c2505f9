-- ===== src/Bulk/Parser/Program.antt =====
-- The whole program on the lines of its input.
use mathlib.Core.Path.{subst}
use cpp.Prelude.{some, ℕ, ◌<◌, ◌≡◌, refl, true, false, List, [], ◌∷◌, ◌++◌, map, arith, length, Str}
use cpp.Prelude.Int.{u64_mod}
use cpp.Prelude.Result.{Result, ok, ◌>>=◌, >>=-eq-ok}
use cpp.Bulk.State.{Event, State, normal, dynamic, Block, handle_event, if_any}
use cpp.Bulk.State.Blocks.{
  handle_events, depth_after, depth, held, handle_events-cons, printed, values_of, value_of,
  printed-if_any, printed-append, printed-handle_events,
}
use cpp.Bulk.State.Nesting.{IsOpen, depth-handle_events}
use cpp.Bulk.Printer.{Output, main_printers, handle_blocks}
use cpp.Bulk.Parser.Filled.{filled, if_any-AllFilled, handle_events-AllFilled}
use cpp.Bulk.Parser.{make_parser, event_of, handle_line, terminate, run}
use cpp.Bulk.Parser.Printing.{
  handle_lines, AllFilled, handle_blocks-written, handle_blocks-append, print_lines-handled,
}

-- The events of the lines; no line may be empty.
unfoldable pub events_of : List (ℕ × Str) → Result (List (ℕ × Event))
unfolding event_of
events_of [] = ok []
events_of ((now, line) ∷ rest) = do
  e ← event_of now line
  more ← events_of rest
  ok ((now, e) ∷ more)

handle_lines-events :
    (lines : List (ℕ × Str)) (events : List (ℕ × Event)) (n : ℕ) (s last : State)
    (blocks : List Block)
    → events_of lines ≡ ok events
    → handle_events n events s ≡ ok (last, blocks)
    → handle_lines lines (record { block_size = n; state = s })
      ≡ ok (record { block_size = n; state = last }, blocks)
unfolding events_of handle_lines handle_line handle_events
handle_lines-events [] events n s last blocks e h =
    let p : events ≡ [] = ground (arith, e) in
    let h' = subst (λ es. handle_events n es s ≡ ok (last, blocks)) p h in ground (arith, h')
handle_lines-events ((now, line) ∷ rest) events n s last blocks e h =
    let (ev, f, f') = >>=-eq-ok (event_of now line) _ e in
    let (more, g, g') = >>=-eq-ok (events_of rest) _ f' in
    let q : events ≡ (now, ev) ∷ more = ground (arith, g') in
    let h' = subst (λ es. handle_events n es s ≡ ok (last, blocks)) q h in
    let (s', b, bs, i, j, p) = handle_events-cons n now ev more s last blocks h' in
    ground (arith, f, i, p, handle_lines-events rest more n s' last bs g j)

terminate-printed :
    (n end : ℕ) (s : State)
    → depth s ≡ 0
    → IsOpen s
    → (blocks : List Block) × (terminate end (record { block_size = n; state = s }) ≡ ok blocks)
      × (printed blocks ≡ map value_of (held s))
      × AllFilled blocks
unfolding terminate handle_event
terminate-printed n end (normal cs) d o = (if_any cs, refl, printed-if_any cs, if_any-AllFilled cs)
terminate-printed n end (dynamic level cs) d o = absurd (omega arith)

-- On lines that are not empty, whose braces are balanced and whose blocks in braces each have a command,
-- fewer than 2^64 lines, the program returns, and what it writes is what its two printers write of blocks
-- that hold exactly the other lines, in their order.
pub run-printed :
    (n end : ℕ) (lines : List (ℕ × Str)) (events : List (ℕ × Event))
    → events_of lines ≡ ok events
    → depth_after 0 events ≡ some 0
    → filled 0 false events ≡ true
    → length events < u64_mod
    → (out : List Output) × (run n lines end ≡ ok out)
      × ((blocks : List Block) × (handle_blocks main_printers blocks ≡ ok out)
          × (printed blocks ≡ values_of events))
unfolding run
run-printed n end lines events e d f l =
    let (last, blocks, h, z, u) = depth-handle_events n events (normal []) 0 tt (omega arith) d in
    let (more, t, p, g) = terminate-printed n end last z u in
    let a =
      handle_events-AllFilled n events (normal []) last blocks false tt (omega (arith, l)) tt f h in
    let (out1, o1) = handle_blocks-written blocks a in
    let (out2, o2) = handle_blocks-written more g in
    let k =
      print_lines-handled main_printers lines (make_parser n)
        (record { block_size = n; state = last }) blocks out1
        (handle_lines-events lines events n (normal []) last blocks e h) o1 in
    (
      out1 ++ out2,
      ground (arith, k, t, o2),
      (
        blocks ++ more,
        handle_blocks-append main_printers blocks more out1 out2 o1 o2,
        ground (
          arith,
          p,
          printed-append blocks more,
          printed-handle_events n events (normal []) last blocks h,
        ),
      ),
    )
