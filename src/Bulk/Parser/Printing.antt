-- ===== src/Bulk/Parser/Printing.antt =====
-- The loop of the program, as the blocks of its lines and what the printers write of them.
use mathlib.Core.List.{append_assoc}
use mathlib.Core.Path.{subst}
use cpp.Prelude.{ℕ, ◌≡◌, ◌≢◌, refl, ap, sym, ◌∙◌, List, [], ◌∷◌, ◌++◌, arith, Str}
use cpp.Prelude.Result.{Result, ok, ◌>>=◌, >>=-eq-ok}
use cpp.Bulk.State.{Block}
use cpp.Bulk.Printer.{Output, Printer, main_printers, handle_block, handle_composite, handle_blocks}
use cpp.Bulk.Parser.{Parser, handle_line, print_line, print_lines}

-- The blocks that the lines hand to the printer, one line after another.
unfoldable pub handle_lines : List (ℕ × Str) → Parser → Result (Parser × List Block)
unfolding handle_line
handle_lines [] p = ok (p, [])
handle_lines ((now, line) ∷ rest) p = do
  (p', blocks) ← handle_line now line p
  (last, more) ← handle_lines rest p'
  ok (last, blocks ++ more)

abbrev pub AllFilled : List Block → Type 0
AllFilled [] = Unit
AllFilled (b ∷ blocks) = (b ≢ []) × AllFilled blocks

written-handle_composite :
    (b : Block) → b ≢ [] → (out : List Output) × (handle_composite main_printers b ≡ ok out)
unfolding handle_composite handle_block
written-handle_composite [] n = absurd (n refl)
written-handle_composite (c ∷ b) n = (_, refl)

-- The printers of the program write every block that is not empty.
pub handle_blocks-written :
    (blocks : List Block)
    → AllFilled blocks
    → (out : List Output) × (handle_blocks main_printers blocks ≡ ok out)
unfolding handle_blocks
handle_blocks-written [] a = ([], refl)
handle_blocks-written (b ∷ blocks) a =
    let (o, f) = written-handle_composite b a.0 in
    let (out, e) = handle_blocks-written blocks a.1 in (o ++ out, ground (arith, e, f))

pub handle_blocks-append :
    (printers : List Printer) (xs ys : List Block) (out more : List Output)
    → handle_blocks printers xs ≡ ok out
    → handle_blocks printers ys ≡ ok more
    → handle_blocks printers (xs ++ ys) ≡ ok (out ++ more)
unfolding handle_blocks
handle_blocks-append printers [] ys out more e f = ground (arith, e, f)
handle_blocks-append printers (b ∷ xs) ys out more e f =
    let (o, g, g') = >>=-eq-ok (handle_composite printers b) _ e in
    let (os, k, k') = >>=-eq-ok (handle_blocks printers xs) _ g' in
    let r = handle_blocks-append printers xs ys os more k f in
    ground (arith, g, r, k', append_assoc o os more)

handle_blocks-split :
    (printers : List Printer) (xs ys : List Block) (all : List Output)
    → handle_blocks printers (xs ++ ys) ≡ ok all
    → (out : List Output) × (more : List Output) × (handle_blocks printers xs ≡ ok out)
      × (handle_blocks printers ys ≡ ok more)
      × (all ≡ out ++ more)
unfolding handle_blocks
handle_blocks-split printers [] ys all e = ([], all, refl, e, refl)
handle_blocks-split printers (b ∷ xs) ys all e =
    let (o, g, g') = >>=-eq-ok (handle_composite printers b) _ e in
    let (os, k, k') = >>=-eq-ok (handle_blocks printers (xs ++ ys)) _ g' in
    let (out, more, p, q, r) = handle_blocks-split printers xs ys os k in
    (o ++ out, more, ground (arith, g, p), q, ground (arith, k', r, append_assoc o out more))

-- When the printers write the blocks of the lines, the loop writes the same.
pub print_lines-handled :
    (printers : List Printer) (lines : List (ℕ × Str)) (p q : Parser) (blocks : List Block)
    (all : List Output)
    → handle_lines lines p ≡ ok (q, blocks)
    → handle_blocks printers blocks ≡ ok all
    → print_lines printers lines p ≡ ok (q, all)
unfolding handle_lines print_lines print_line handle_blocks
print_lines-handled printers [] p q blocks all e f =
    let b : blocks ≡ [] = ground (arith, e) in
    ground (arith, e, subst (λ bs. handle_blocks printers bs ≡ ok all) b f)
print_lines-handled printers ((now, line) ∷ lines) p q blocks all e f =
    let (s, k, l) = >>=-eq-ok (handle_line now line p) _ e in
    let (s', k', l') = >>=-eq-ok (handle_lines lines s.0) _ l in
    let b : blocks ≡ s.1 ++ s'.1 = ground (arith, l') in
    let (out, more, g, g', h) =
      handle_blocks-split printers s.1 s'.1 all (ap (handle_blocks printers) (sym b) ∙ f) in
    let r = print_lines-handled printers lines s.0 s'.0 s'.1 more k' g' in
    ground (arith, k, g, r, l', h)

-- What the loop writes is what the printers write of the blocks of the lines.
pub print_lines-blocks :
    (printers : List Printer) (lines : List (ℕ × Str)) (p q : Parser) (all : List Output)
    → print_lines printers lines p ≡ ok (q, all)
    → (blocks : List Block) × (handle_lines lines p ≡ ok (q, blocks))
      × (handle_blocks printers blocks ≡ ok all)
unfolding handle_lines print_lines print_line
print_lines-blocks printers [] p q all e =
    ([], unfold handle_blocks in ground (arith, e), unfold handle_blocks in ground (arith, e))
print_lines-blocks printers ((now, line) ∷ lines) p q all e =
    let (s, k, l) = >>=-eq-ok (print_line printers now line p) _ e in
    let (s', k', l') = >>=-eq-ok (print_lines printers lines s.0) _ l in
    let (t, m, n) = >>=-eq-ok (handle_line now line p) _ k in
    let (o, m', n') = >>=-eq-ok (handle_blocks printers t.1) _ n in
    let (blocks, c, d) = print_lines-blocks printers lines s.0 s'.0 s'.1 k' in
    let u : t.0 ≡ s.0 = ground (arith, n') in
    let v : o ≡ s.1 = ground (arith, n') in
    let w = handle_blocks-append printers t.1 blocks o s'.1 m' d in
    (t.1 ++ blocks, ground (arith, m, u, c, l'), ground (arith, w, v, l'))
