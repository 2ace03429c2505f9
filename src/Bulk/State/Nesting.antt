-- ===== src/Bulk/State/Nesting.antt =====
-- Nested blocks: which event sequences are accepted, and what a whole block prints.
use mathlib.Core.List.{append_assoc}
use cpp.Prelude.{
  inl, inr, none, some, ℕ, zero, suc, ◌+◌, ◌≤◌, ◌<◌, ◌≡◌, refl, List, [], ◌∷◌, ◌++◌, arith, length,
}
use cpp.Prelude.Int.{u64_mod}
use cpp.Prelude.Result.{ok, throw, invalid_argument, Exception, Result-cases}
use cpp.Bulk.State.{
  Command, Event, command, block_start, block_end, end_of_file, State, normal, dynamic, Block,
  if_any, handle_event,
}
use cpp.Bulk.State.Blocks.{
  handle_events, depth_after, depth, stored, inside-handle_events, handle_events-cons,
}

handle_events-append :
    (n : ℕ) (xs ys : List (ℕ × Event)) (s s1 s2 : State) (b1 b2 : List Block)
    → handle_events n xs s ≡ ok (s1, b1)
    → handle_events n ys s1 ≡ ok (s2, b2)
    → handle_events n (xs ++ ys) s ≡ ok (s2, b1 ++ b2)
unfolding handle_events
handle_events-append n [] ys s s1 s2 b1 b2 h g = ground (arith, h, g)
handle_events-append n ((now, e) ∷ xs) ys s s1 s2 b1 b2 h g =
    let (s', b, more, f, f', p) = handle_events-cons n now e xs s s1 b1 h in
    ground (arith, f, p, handle_events-append n xs ys s' s1 s2 more b2 f' g, append_assoc b more b2)

end-handle_events :
    (n t : ℕ) (cs : List Command)
    → handle_events n ((t, block_end) ∷ []) (dynamic 1 cs) ≡ ok (normal [], cs ∷ [])
unfolding handle_events
end-handle_events n t cs = refl

-- A block in braces whose inner blocks are balanced is printed as one block with the commands of
-- all its levels in their order, after what was held before it.
pub block-handle_events :
    (n t0 t1 : ℕ) (body : List (ℕ × Event)) (cs : List Command)
    → depth_after 0 body ≡ some 0
    → length body + 1 < u64_mod
    → handle_events n ((t0, block_start) ∷ body ++ (t1, block_end) ∷ []) (normal cs)
      ≡ ok (normal [], if_any cs ++ stored body ∷ [])
unfolding handle_events
block-handle_events n t0 t1 body cs h b = ground (
  arith,
  handle_events-append n body ((t1, block_end) ∷ []) (dynamic 1 []) (dynamic 1 (stored body))
      (normal []) [] (stored body ∷ []) (inside-handle_events n body 0 0 [] h (omega arith))
      (end-handle_events n t1 (stored body)),
)

-- A block that is open counts at least one brace.
abbrev pub IsOpen : State → Type 0
IsOpen (normal commands) = Unit
IsOpen (dynamic level commands) = 0 < level

pub depth-handle_event :
    (n now : ℕ) (e : Event) (rest : List (ℕ × Event)) (s s' : State) (b : List Block)
    → IsOpen s
    → depth s + 1 < u64_mod
    → handle_event n now e s ≡ ok (s', b)
    → (depth_after (depth s) ((now, e) ∷ rest) ≡ depth_after (depth s') rest)
      × IsOpen s'
      × (depth s' ≤ depth s + 1)
unfolding handle_event depth_after
depth-handle_event n now (command c) rest (normal cs) s' b o l h = ground (arith, h)
depth-handle_event n now block_start rest (normal cs) s' b o l h = ground (arith, h)
depth-handle_event n now block_end rest (normal cs) s' b o l h = cc
depth-handle_event n now end_of_file rest (normal cs) s' b o l h = ground (arith, h)
depth-handle_event n now e rest (dynamic zero cs) s' b o l h = absurd (omega arith)
depth-handle_event n now (command c) rest (dynamic (suc d) cs) s' b o l h = ground (arith, h)
depth-handle_event n now block_start rest (dynamic (suc d) cs) s' b o l h = ground (arith, h)
depth-handle_event n now block_end rest (dynamic (suc zero) cs) s' b o l h = ground (arith, h)
depth-handle_event n now block_end rest (dynamic (suc (suc d)) cs) s' b o l h = ground (arith, h)
depth-handle_event n now end_of_file rest (dynamic (suc d) cs) s' b o l h = ground (arith, h)

refused-handle_event :
    (n now : ℕ) (e : Event) (rest : List (ℕ × Event)) (s : State) (x : Exception)
    → handle_event n now e s ≡ throw x
    → (x ≡ invalid_argument) × (depth_after (depth s) ((now, e) ∷ rest) ≡ none)
unfolding handle_event depth_after
refused-handle_event n now (command c) rest (normal cs) x h = absurd (ground (arith, h))
refused-handle_event n now block_start rest (normal cs) x h = cc
refused-handle_event n now block_end rest (normal cs) x h = ground (arith, h)
refused-handle_event n now end_of_file rest (normal cs) x h = cc
refused-handle_event n now (command c) rest (dynamic d cs) x h = cc
refused-handle_event n now block_start rest (dynamic d cs) x h = cc
refused-handle_event n now block_end rest (dynamic d cs) x h = absurd (ground (arith, h))
refused-handle_event n now end_of_file rest (dynamic d cs) x h = cc

-- Events, fewer than 2^64, that never end a block that is not open are all handled without an
-- exception, and the state left has the depth that the braces give.
pub depth-handle_events :
    (n : ℕ) (events : List (ℕ × Event)) (s : State) (d : ℕ)
    → IsOpen s
    → depth s + length events < u64_mod
    → depth_after (depth s) events ≡ some d
    → (last : State) × (blocks : List Block) × (handle_events n events s ≡ ok (last, blocks))
      × (depth last ≡ d)
      × IsOpen last
unfolding handle_events
depth-handle_events n [] s d o b h = (s, [], refl, unfold depth_after in ground (arith, h), o)
depth-handle_events n ((now, e) ∷ rest) s d o b h = elim (Result-cases (handle_event n now e s)) [
  | inl (r, f) ↦
      let (g, o', l) = depth-handle_event n now e rest s r.0 r.1 o (omega arith) f in
      let (last, blocks, p, q, u) =
        depth-handle_events n rest r.0 d o' (omega arith) (ground (arith, g, h)) in
      (last, r.1 ++ blocks, ground (arith, f, p), q, u)
  | inr (x, f) ↦ absurd (ground (arith, h, refused-handle_event n now e rest s x f))
]

-- Events, fewer than 2^64, that end a block that is not open are refused with invalid_argument.
handle_events-refused :
    (n : ℕ) (events : List (ℕ × Event)) (s : State)
    → IsOpen s
    → depth s + length events < u64_mod
    → depth_after (depth s) events ≡ none
    → handle_events n events s ≡ throw invalid_argument
unfolding handle_events
handle_events-refused n [] s o b h = absurd (unfold depth_after in ground (arith, h))
handle_events-refused n ((now, e) ∷ rest) s o b h = elim (Result-cases (handle_event n now e s)) [
  | inl (r, f) ↦
      let (g, o', l) = depth-handle_event n now e rest s r.0 r.1 o (omega arith) f in
      ground (arith, f, handle_events-refused n rest r.0 o' (omega arith) (ground (arith, g, h)))
  | inr (x, f) ↦ ground (arith, f, refused-handle_event n now e rest s x f)
]
