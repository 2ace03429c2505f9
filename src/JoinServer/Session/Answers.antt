-- ===== src/JoinServer/Session/Answers.antt =====
-- The texts that a session writes.
use mathlib.Core.Path.{subst}
use cpp.Prelude.OrdMap.{OrdMap, AllValues}
use mathlib.Core.List.{append_assoc, append-nil}
use cpp.Prelude.{
  ℕ, zero, suc, ◌+◌, ◌≤◌, ◌<◌, ◌≡◌, refl, ap, sym, ◌∙◌, List, [], ◌∷◌, ◌++◌, arith, length, set,
  take, length-set, length-append, Str, bytes,
}
use cpp.Prelude.Result.{Result, ok, throw}
use cpp.JoinServer.Value.{Value, RowData}
use cpp.JoinServer.Command.{success}
use cpp.JoinServer.Database.{status}
use cpp.JoinServer.Database.Outputs.{items_of}
use cpp.JoinServer.Session.{
  copy, dump_status, write_queue, overwrite, shown, separator, dump_cells, dump,
}

-- The line of a row: its cells with commas between them, and a newline.
unfoldable pub line : List Value → Str
line [] = []
line (v ∷ rest) = shown v ++ separator rest ∷ line rest

overwrite-append :
    (buffer : Str) (offset : ℕ) (xs ys : Str)
    → overwrite buffer offset (xs ++ ys)
      ≡ overwrite (overwrite buffer offset xs) (offset + length xs) ys
unfolding overwrite
overwrite-append buffer offset [] ys = ground arith
overwrite-append buffer offset (c ∷ xs) ys =
    ground (arith, overwrite-append (set buffer offset c) (offset + 1) xs ys)

length-overwrite :
    (buffer : Str) (offset : ℕ) (xs : Str) → length (overwrite buffer offset xs) ≡ length buffer
unfolding overwrite
length-overwrite buffer offset [] = refl
length-overwrite buffer offset (c ∷ xs) =
    length-overwrite (set buffer offset c) (offset + 1) xs ∙ length-set buffer offset c

take-set :
    (buffer : Str) (i c : ℕ)
    → i < length buffer
    → take (suc i) (set buffer i c) ≡ take i buffer ++ c ∷ []
take-set [] i c h = elim h [ ]
take-set (x ∷ buffer) zero c h = refl
take-set (x ∷ buffer) (suc i) c h = ap (λ t. x ∷ t) (take-set buffer i c (omega arith))

take-overwrite :
    (buffer : Str) (offset : ℕ) (xs : Str)
    → offset + length xs ≤ length buffer
    → take (offset + length xs) (overwrite buffer offset xs) ≡ take offset buffer ++ xs
unfolding overwrite
take-overwrite buffer offset [] h = ground (arith, append-nil (take offset buffer))
take-overwrite buffer offset (c ∷ xs) h = ground (
  arith,
  take-overwrite (set buffer offset c) (offset + 1) xs (omega (arith, length-set buffer offset c)),
  take-set buffer offset c (omega arith),
  append_assoc (take offset buffer) (c ∷ []) xs,
)

-- One cell and what follows it, written in one go.
overwrite-cell :
    (buffer : Str) (offset c : ℕ) (xs ys : Str)
    → overwrite buffer offset (xs ++ c ∷ ys)
      ≡ overwrite
          (set (overwrite buffer offset xs) (offset + length xs) c)
          (offset + length xs + 1)
          ys
overwrite-cell buffer offset c xs ys =
    overwrite-append buffer offset xs (c ∷ ys) ∙ (unfold overwrite in refl)

dump_cells-fits :
    (buffer : Str) (offset : ℕ) (vs : List Value)
    → offset + length (line vs) ≤ length buffer
    → dump_cells buffer offset vs
      ≡ ok (overwrite buffer offset (line vs), offset + length (line vs))
unfolding dump_cells line
dump_cells-fits buffer offset [] h = unfold overwrite in ground arith
dump_cells-fits buffer offset (v ∷ rest) h = ground (
  arith,
  length-append (shown v) (separator rest ∷ line rest),
  length-overwrite buffer offset (shown v),
  length-set (overwrite buffer offset (shown v)) (offset + length (shown v)) (separator rest),
  overwrite-cell buffer offset (separator rest) (shown v) (line rest),
  dump_cells-fits
      (set (overwrite buffer offset (shown v)) (offset + length (shown v)) (separator rest))
      (offset + length (shown v) + 1) rest,
)

-- A result that is an exception.
abbrev pub Throws : {A : Type 0} → Result A → Type 0
Throws (ok a) = ⊥
Throws (throw e) = Unit

dump_cells-Throws :
    (buffer : Str) (offset : ℕ) (vs : List Value)
    → offset ≤ length buffer
    → length buffer < offset + length (line vs)
    → Throws (dump_cells buffer offset vs)
unfolding dump_cells line
dump_cells-Throws buffer offset [] le h = omega arith
dump_cells-Throws buffer offset (v ∷ rest) le h = ground (
  arith,
  length-append (shown v) (separator rest ∷ line rest),
  length-overwrite buffer offset (shown v),
  length-set (overwrite buffer offset (shown v)) (offset + length (shown v)) (separator rest),
  dump_cells-Throws
      (set (overwrite buffer offset (shown v)) (offset + length (shown v)) (separator rest))
      (offset + length (shown v) + 1) rest,
)

-- `Dump` of a row whose line fits into the buffer: the first bytes of the buffer become that line,
-- and their number is returned.
pub dump-line :
    (row : RowData) (buffer : Str)
    → length (line row.values) ≤ length buffer
    → (written : Str) × (dump row buffer ≡ ok (written, length (line row.values)))
      × (length written ≡ length buffer)
      × (take (length (line row.values)) written ≡ line row.values)
unfolding dump
dump-line row buffer h = (
  overwrite buffer 0 (line row.values),
  dump_cells-fits buffer 0 row.values (omega arith)
      ∙ ap (λ n. ok (overwrite buffer 0 (line row.values), n)) (omega arith),
  length-overwrite buffer 0 (line row.values),
  ground (arith, take-overwrite buffer 0 (line row.values)),
)

-- `Dump` of a row whose line does not fit into the buffer throws.
dump-Throws :
    (row : RowData) (buffer : Str)
    → length buffer < length (line row.values)
    → Throws (dump row buffer)
unfolding dump
dump-Throws row buffer h = dump_cells-Throws buffer 0 row.values (omega arith) (omega arith)

copy-take :
    (message buffer : Str)
    → length message ≤ length buffer
    → (copy message buffer ≡ ok (overwrite buffer 0 message, length message))
      × (take (length message) (overwrite buffer 0 message) ≡ message)
unfolding copy
copy-take message buffer h = (ground arith, ground (arith, take-overwrite buffer 0 message))

-- The lines of the rows of a map, in the order of their keys.
unfoldable pub lines_of : OrdMap RowData → List Str
lines_of [] = []
lines_of ((k, d) ∷ m) = line d.values ∷ lines_of m

-- A row whose line fits into a buffer of `size` bytes.
abbrev pub Fits : ℕ → RowData → Type 0
Fits size d = length (line d.values) ≤ size

-- When the buffer holds two bytes and the line of every row, the rows of a reply are written one
-- after another, each as its line, and then "OK".
pub write_queue-lines :
    (buffer : Str) (m : OrdMap RowData)
    → 2 ≤ length buffer
    → AllValues (Fits (length buffer)) m
    → (last : Str) × (write_queue buffer (items_of m ++ status success ∷ [])
        ≡ ok (last, lines_of m ++ bytes "OK" ∷ []))
unfolding write_queue items_of lines_of
write_queue-lines buffer [] h a = (
  overwrite buffer 0 (bytes "OK"),
  unfold dump_status in ground (arith, copy-take (bytes "OK") buffer h),
)
write_queue-lines buffer ((k, d) ∷ m) h a =
    let (written, e, l, t) = dump-line d buffer a.0 in
    let (last, f) =
      write_queue-lines written m (omega (arith, l))
        (subst (λ n. AllValues (Fits n) m) (sym l) a.1) in
    (last, ground (arith, e, f, t))
