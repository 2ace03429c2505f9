-- ===== src/JoinServer/Database/History.antt =====
-- Sequences of commands from a database: the abstract store that they leave.
use cpp.Prelude.{ℕ, ◌+◌, ◌<◌, ◌≡◌, refl, ap, ◌∙◌, List, [], ◌∷◌, arith, length}
use mathlib.Core.Path.{fun_ext}
use cpp.Prelude.Int.{u64_mod}
use cpp.Prelude.Result.{Result, ok, ◌>>=◌}
use cpp.JoinServer.Command.{Command}
use cpp.JoinServer.Database.{Database, create, handle_command}
use cpp.JoinServer.Database.Reads.{read}
use cpp.JoinServer.Database.Serial.{
  View, apply, IsCommand, IsDatabase, IsApplied, handle_command-IsApplied,
}

-- Commands one after another; the items that they push are left out.
unfoldable pub serve : Database → List Command → Result Database
serve db [] = ok db
serve db (c ∷ rest) = do (db', items) ← handle_command c db; serve db' rest

unfoldable pub apply_all : List Command → View → View
apply_all [] view = view
apply_all (c ∷ rest) view = apply_all rest (apply c view)

abbrev pub AllCommands : List Command → Type 0
AllCommands [] = Unit
AllCommands (c ∷ rest) = IsCommand c × AllCommands rest

applied_view :
    (c : Command) (db db' : Database) (x : ℕ)
    → IsApplied c db db'
    → db.tx_counter < x
    → read x db'.tables ≡ apply c (read x db.tables)
applied_view c db db' x a h = fun_ext λ n. fun_ext λ j. ground (arith, a.reads x n j)

-- From a valid database whose counter plus the number of commands stays below 2^64, commands whose
-- inserted rows begin with a key are all served without a throw; the database left is valid, and
-- every later transaction reads of it the store that the abstract commands, one after another, make
-- of the store read before.
pub serve-apply_all :
    (cs : List Command) (db : Database)
    → IsDatabase db
    → db.tx_counter + length cs < u64_mod
    → AllCommands cs
    → (db' : Database) × (serve db cs ≡ ok db')
      × IsDatabase db'
      × ((x : ℕ)
          → db.tx_counter + length cs < x
          → read x db'.tables ≡ apply_all cs (read x db.tables))
unfolding serve apply_all
serve-apply_all [] db v h a = (db, refl, v, λ x lt. refl)
serve-apply_all (c ∷ rest) db v h a =
    let (db1, items, e, s) = handle_command-IsApplied c db v (omega arith) a.0 in
    let (db', f, v', r) = serve-apply_all rest db1 s.valid (omega (arith, s.counter)) a.1 in
    (
      db',
      rw e f,
      v',
      λ x lt.
          r x (omega (arith, s.counter))
          ∙ ap (apply_all rest) (applied_view c db db1 x s (omega arith)),
    )

pub create-IsDatabase : IsDatabase create
create-IsDatabase = record { stored = tt }
