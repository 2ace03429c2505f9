-- ===== src/Bulk/State/Blocks.antt =====
-- The blocks of sequences of events.
use mathlib.Core.List.{append_assoc, append-nil, map-append}
use cpp.Prelude.{
  Option, none, some, ℕ, zero, suc, ◌+◌, ◌<◌, ◌≡◌, refl, sym, List, [], ◌∷◌, ◌++◌, map, arith,
  length, Str,
}
use cpp.Prelude.Int.{u64_mod}
use cpp.Prelude.Result.{ok, ◌>>=◌, >>=-eq-ok}
use cpp.Bulk.State.{
  Command, Event, command, block_start, block_end, end_of_file, State, normal, dynamic, Block,
  Handled, stamped, if_any, handle_event,
}

-- Events one after another, each with the clock at its time.
unfoldable pub handle_events : ℕ → List (ℕ × Event) → State → Handled
unfolding handle_event
handle_events n [] s = ok (s, [])
handle_events n ((now, e) ∷ rest) s = do
  (s', blocks) ← handle_event n now e s
  (last, more) ← handle_events n rest s'
  ok (last, blocks ++ more)

abbrev pub value_of : Command → Str
value_of c = c.value

-- The commands that a state holds back.
abbrev pub held : State → List Command
held (normal commands) = commands
held (dynamic level commands) = commands

-- The values of the blocks, in their order.
unfoldable pub printed : List Block → List Str
printed [] = []
printed (b ∷ blocks) = map value_of b ++ printed blocks

-- The values of the commands among the events.
unfoldable pub values_of : List (ℕ × Event) → List Str
values_of [] = []
values_of ((now, command c) ∷ rest) = c.value ∷ values_of rest
values_of ((now, e) ∷ rest) = values_of rest

-- What a state may hold: fewer commands than a block, or the commands of an open block.
abbrev pub IsState : ℕ → State → Type 0
IsState n (normal commands) = length commands < n
IsState n (dynamic level commands) = (0 < level) × (level < u64_mod)

map-snoc :
    (cs : List Command) (c : Command)
    → map value_of (cs ++ c ∷ []) ≡ map value_of cs ++ c.value ∷ []
map-snoc cs c = map-append value_of cs (c ∷ [])

pub printed-if_any : (cs : List Command) → printed (if_any cs) ≡ map value_of cs
unfolding printed
printed-if_any [] = refl
printed-if_any (c ∷ cs) = append-nil (map value_of (c ∷ cs))

-- Nothing is lost and nothing is invented by one event.
pub printed-handle_event :
    (n now : ℕ) (e : Event) (s s' : State) (blocks : List Block)
    → handle_event n now e s ≡ ok (s', blocks)
    → map value_of (held s) ++ values_of ((now, e) ∷ []) ≡ printed blocks ++ map value_of (held s')
unfolding handle_event printed values_of
printed-handle_event n now (command c) (normal cs) s' blocks h =
    ground
      (arith, h, map-snoc cs (stamped now c), append-nil (map value_of (cs ++ stamped now c ∷ [])))
printed-handle_event n now block_start (normal cs) s' blocks h =
    ground (arith, h, printed-if_any cs, append-nil (map value_of cs))
printed-handle_event n now block_end (normal cs) s' blocks h = cc
printed-handle_event n now end_of_file (normal cs) s' blocks h =
    ground (arith, h, printed-if_any cs, append-nil (map value_of cs))
printed-handle_event n now (command c) (dynamic l cs) s' blocks h =
    ground (arith, h, map-snoc cs (stamped now c))
printed-handle_event n now block_start (dynamic l cs) s' blocks h =
    ground (arith, h, append-nil (map value_of cs))
printed-handle_event n now block_end (dynamic l cs) s' blocks h =
    ground (arith, h, append-nil (map value_of cs), append-nil (map value_of cs ++ []))
printed-handle_event n now end_of_file (dynamic l cs) s' blocks h =
    ground (arith, h, append-nil (map value_of cs))

pub printed-append : (xs ys : List Block) → printed (xs ++ ys) ≡ printed xs ++ printed ys
unfolding printed
printed-append [] ys = refl
printed-append (b ∷ xs) ys =
    rw (printed-append xs ys) (sym (append_assoc (map value_of b) (printed xs) (printed ys)))

values_of-cons :
    (now : ℕ) (e : Event) (rest : List (ℕ × Event))
    → values_of ((now, e) ∷ rest) ≡ values_of ((now, e) ∷ []) ++ values_of rest
unfolding values_of
values_of-cons now (command c) rest = refl
values_of-cons now block_start rest = refl
values_of-cons now _ rest = refl

-- The inversion of a sequence that was handled.
pub handle_events-cons :
    (n now : ℕ) (e : Event) (rest : List (ℕ × Event)) (s last : State) (all : List Block)
    → handle_events n ((now, e) ∷ rest) s ≡ ok (last, all)
    → (s' : State) × (blocks : List Block) × (more : List Block) × (handle_event n now e s
        ≡ ok (s', blocks))
      × (handle_events n rest s' ≡ ok (last, more))
      × (all ≡ blocks ++ more)
unfolding handle_events
handle_events-cons n now e rest s last all h =
    let (r, f, g) = >>=-eq-ok (handle_event n now e s) _ h in
    let (t, f', g') = >>=-eq-ok (handle_events n rest r.0) _ g in
    (r.0, r.1, t.1, f, ground (arith, f', g'), ground (arith, g'))

-- When events are handled, the commands that were held and those of the events are, in their order,
-- the commands that are printed and those that are held afterwards.
pub printed-handle_events :
    (n : ℕ) (events : List (ℕ × Event)) (s last : State) (blocks : List Block)
    → handle_events n events s ≡ ok (last, blocks)
    → map value_of (held s) ++ values_of events ≡ printed blocks ++ map value_of (held last)
unfolding handle_events printed values_of
printed-handle_events n [] s last blocks h = ground (arith, h, append-nil (map value_of (held s)))
printed-handle_events n ((now, e) ∷ rest) s last blocks h =
    let (s', b, more, f, g, p) = handle_events-cons n now e rest s last blocks h in
    ground (
      arith,
      p,
      printed-handle_event n now e s s' b f,
      printed-handle_events n rest s' last more g,
      printed-append b more,
      values_of-cons now e rest,
      append_assoc (map value_of (held s)) (values_of ((now, e) ∷ [])) (values_of rest),
      append_assoc (printed b) (map value_of (held s')) (values_of rest),
      append_assoc (printed b) (printed more) (map value_of (held last)),
    )

-- The nesting depth after the events from a depth, `none` once a block ends that was not open.
unfoldable pub depth_after : ℕ → List (ℕ × Event) → Option ℕ
depth_after d [] = some d
depth_after d ((now, block_start) ∷ rest) = depth_after (suc d) rest
depth_after zero ((now, block_end) ∷ rest) = none
depth_after (suc d) ((now, block_end) ∷ rest) = depth_after d rest
depth_after d ((now, e) ∷ rest) = depth_after d rest

abbrev pub depth : State → ℕ
depth (normal commands) = 0
depth (dynamic level commands) = level

-- The commands of the events, with the times at which they were stored.
unfoldable pub stored : List (ℕ × Event) → List Command
stored [] = []
stored ((now, command c) ∷ rest) = stamped now c ∷ stored rest
stored ((now, e) ∷ rest) = stored rest

-- Inside an open block nothing is printed, while the blocks within it are balanced.
pub inside-handle_events :
    (n : ℕ) (events : List (ℕ × Event)) (d d' : ℕ) (cs : List Command)
    → depth_after d events ≡ some d'
    → d + length events + 1 < u64_mod
    → handle_events n events (dynamic (suc d) cs) ≡ ok (dynamic (suc d') (cs ++ stored events), [])
unfolding handle_events depth_after stored
inside-handle_events n [] d d' cs h b = ground (arith, h, append-nil cs)
inside-handle_events n ((now, command c) ∷ rest) d d' cs h b = ground (
  arith,
  inside-handle_events n rest d d' (cs ++ stamped now c ∷ []) h,
  append_assoc cs (stamped now c ∷ []) (stored rest),
)
inside-handle_events n ((now, block_start) ∷ rest) d d' cs h b =
    ground (arith, inside-handle_events n rest (suc d) d' cs h)
inside-handle_events n ((now, block_end) ∷ rest) zero d' cs h b = cc
inside-handle_events n ((now, block_end) ∷ rest) (suc d) d' cs h b =
    ground (arith, inside-handle_events n rest d d' cs h)
inside-handle_events n ((now, end_of_file) ∷ rest) d d' cs h b =
    ground (arith, inside-handle_events n rest d d' cs h)
