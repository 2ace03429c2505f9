-- ===== src/Bulk/Parser/Filled.antt =====
-- Which sequences of events print no empty block.
use mathlib.Core.Path.{subst}
use cpp.Prelude.{
  ℕ, zero, suc, ◌+◌, ◌<◌, ◌≡◌, ◌≢◌, sym, Bool, true, false, ◌&&◌, ◌==◌, Bool-cases, inl, inr, List,
  [], ◌∷◌, ◌++◌, arith, length,
}
use cpp.Prelude.Int.{u64_mod}
use cpp.Prelude.Result.{Result, ok, throw}
use cpp.Bulk.State.{
  Command, Event, command, block_start, block_end, end_of_file, State, normal, dynamic, Block,
  stamped, increment, decrement, handle_event, if_any,
}
use cpp.Bulk.State.Blocks.{handle_events, depth, handle_events-cons}
use cpp.Bulk.State.Nesting.{IsOpen, depth-handle_event}
use cpp.Bulk.Parser.Printing.{AllFilled}

-- Whether every block in braces, also with inner ones, has a command: from a depth, and with whether the
-- open block has one.
unfoldable pub filled : ℕ → Bool → List (ℕ × Event) → Bool
filled d found [] = true
filled d found ((now, command c) ∷ rest) = filled d true rest
filled zero found ((now, block_start) ∷ rest) = filled 1 false rest
filled (suc d) found ((now, block_start) ∷ rest) = filled (suc (suc d)) found rest
filled zero found ((now, block_end) ∷ rest) = filled zero found rest
filled (suc zero) found ((now, block_end) ∷ rest) = found && filled zero false rest
filled (suc (suc d)) found ((now, block_end) ∷ rest) = filled (suc d) found rest
filled d found ((now, end_of_file) ∷ rest) = filled d found rest

-- An open block in which a command was found has one.
abbrev Found : Bool → State → Type 0
Found found (normal cs) = Unit
Found found (dynamic l cs) = found ≡ true → cs ≢ []

pub AllFilled-append : (xs ys : List Block) → AllFilled xs → AllFilled ys → AllFilled (xs ++ ys)
AllFilled-append [] ys a b = b
AllFilled-append (x ∷ xs) ys a b = (a.0, AllFilled-append xs ys a.1 b)

pub if_any-AllFilled : (cs : List Command) → AllFilled (if_any cs)
if_any-AllFilled [] = tt
if_any-AllFilled (c ∷ cs) = ((λ e. cc), tt)

snoc-filled : (cs : List Command) (c : Command) → cs ++ c ∷ [] ≢ []
snoc-filled [] c e = cc
snoc-filled (d ∷ cs) c e = cc

and_parts : (b c : Bool) → (b && c) ≡ true → (b ≡ true) × (c ≡ true)
and_parts b c h = (ground (arith, h), ground (arith, h))

-- The blocks that an event prints are filled, and so the rest has still to be.
abbrev IsFilledAfter : List (ℕ × Event) → Result (State × List Block) → Type 0
IsFilledAfter rest (ok (s, blocks)) =
    AllFilled blocks × ((found : Bool) × Found found s × (filled (depth s) found rest ≡ true))
IsFilledAfter rest (throw x) = Unit

handle_event-IsFilledAfter :
    (n now : ℕ) (e : Event) (rest : List (ℕ × Event)) (s : State) (found : Bool)
    → IsOpen s
    → depth s + 1 < u64_mod
    → Found found s
    → filled (depth s) found ((now, e) ∷ rest) ≡ true
    → IsFilledAfter rest (handle_event n now e s)
unfolding filled handle_event
handle_event-IsFilledAfter n now (command c) rest (normal cs) found o l w f =
    elim (Bool-cases (length (cs ++ stamped now c ∷ []) == n)) [
      | inl e ↦ rw (e) (((snoc-filled cs (stamped now c), tt), (true, tt, f)))
      | inr e ↦ rw (e) ((tt, (true, tt, f)))
    ]
handle_event-IsFilledAfter n now block_start rest (normal cs) found o l w f =
    (if_any-AllFilled cs, (false, (λ e. cc), f))
handle_event-IsFilledAfter n now block_end rest (normal cs) found o l w f = tt
handle_event-IsFilledAfter n now end_of_file rest (normal cs) found o l w f =
    (if_any-AllFilled cs, (found, tt, f))
handle_event-IsFilledAfter n now e rest (dynamic zero cs) found o l w f = absurd (omega (arith, o))
handle_event-IsFilledAfter n now (command c) rest (dynamic (suc d) cs) found o l w f =
    (tt, (true, (λ e. snoc-filled cs (stamped now c)), f))
handle_event-IsFilledAfter n now block_start rest (dynamic (suc d) cs) found o l w f =
    let e : suc (suc d) ≡ increment (suc d) = omega (arith, l) in
    (tt, (found, w, subst (λ k. filled k found rest ≡ true) e f))
handle_event-IsFilledAfter n now block_end rest (dynamic (suc zero) cs) found o l w f =
    let (g, h) = and_parts found (filled zero false rest) f in ((w g, tt), (false, tt, h))
handle_event-IsFilledAfter n now block_end rest (dynamic (suc (suc d)) cs) found o l w f =
    let e : decrement (suc (suc d)) ≡ suc d = omega (arith, l) in
    let z : (suc d == 0) ≡ false = ground arith in rw (e, z) ((tt, (found, w, f)))
handle_event-IsFilledAfter n now end_of_file rest (dynamic (suc d) cs) found o l w f =
    (tt, (found, w, f))

-- Events whose blocks in braces have commands print no empty block.
pub handle_events-AllFilled :
    (n : ℕ) (events : List (ℕ × Event)) (s last : State) (blocks : List Block) (found : Bool)
    → IsOpen s
    → depth s + length events < u64_mod
    → Found found s
    → filled (depth s) found events ≡ true
    → handle_events n events s ≡ ok (last, blocks)
    → AllFilled blocks
unfolding handle_events
handle_events-AllFilled n [] s last blocks found o l w f h =
    let e : [] ≡ blocks = ground (arith, h) in subst AllFilled e tt
handle_events-AllFilled n ((now, e) ∷ rest) s last blocks found o l w f h =
    let (s', b, more, g, k, p) = handle_events-cons n now e rest s last blocks h in
    let (_, o', m) = depth-handle_event n now e rest s s' b o (omega (arith, l)) g in
    let q = handle_event-IsFilledAfter n now e rest s found o (omega (arith, l)) w f in
    let (a, (found', w', f')) = subst (IsFilledAfter rest) g q in
    let c = handle_events-AllFilled n rest s' last more found' o' (omega (arith, l, m)) w' f' k in
    subst AllFilled (sym p) (AllFilled-append b more a c)
