-- ===== src/Async/Isolation.antt =====
-- The connections of the asynchronous grouper do not see each other.
use mathlib.Core.Path.{subst}
use native.Mathlib.Decide.{ℕ_discrete}
use cpp.Prelude.{
  inl, inr, ℕ, ◌+◌, ◌<◌, ◌≡◌, ◌≢◌, refl, sym, true, Bool-cases, none, some, Option-cases, List, [],
  ◌∷◌, arith, ◌==◌, if◌then◌else◌, length, Str,
}
use cpp.Prelude.Int.{u64_mod}
use cpp.Prelude.OrdMap.{OrdMap, find, assign, find-assign}
use cpp.Prelude.Result.{ok}
use cpp.Bulk.Parser.{Parser, make_parser}
use cpp.Async.Alone.{
  Call, line, finish, calls_of, replies_to, answer, replies, is_open, close, IsProper, AreStored,
}
use cpp.Async.{
  Handles, Reply, handle_line, terminate, Controller, connect_parser, erase, receive_line,
  remove_parser, Request, connect, receive, disconnect, serve,
}

is_open-close :
    (i j : ℕ) (opened : List ℕ)
    → is_open i (close j opened) ≡ true
    → (i ≢ j) × (is_open i opened ≡ true)
unfolding is_open close
is_open-close i j [] h = cc
is_open-close i j (k ∷ opened) h = elim (Bool-cases (j == k)) [
  | inl e ↦ let (n, o) = is_open-close i j opened (ground (arith, e, h)) in (n, ground (arith, o))
  | inr e ↦ elim (Bool-cases (i == k)) [
    | inl f ↦ ((λ q. ground (arith, e, f, q)), ground (arith, f))
    | inr f ↦
        let (n, o) = is_open-close i j opened (ground (arith, e, f, h)) in (n, ground (arith, f, o))
  ]
]

find-erase :
    (j id : ℕ) (m : OrdMap Parser) → find j (erase id m) ≡ (if j == id then none else find j m)
unfolding find erase
find-erase j id [] = ground arith
find-erase j id ((i, p) ∷ m) = ground (arith, find-erase j id m)

connect-AreStored :
    (block_size : ℕ) (opened : List ℕ) (c : Controller)
    → AreStored opened c
    → AreStored (c.parser_counter ∷ opened) (connect_parser block_size c).1
unfolding connect_parser is_open
connect-AreStored block_size opened c a id h n =
    ground (arith, h, n, a id, find-assign id c.parser_counter (make_parser block_size) c.storage)

-- A call of the connection `j` changes its parser as if it were alone, and no other.
record IsAnswered (handles : Handles) (call : Call) (j : ℕ) (c : Controller) (c' : Controller)
    (r : Reply) : Type 0 where
  reply : r ≡ (answer handles call (find j c.storage)).1
  counter : c'.parser_counter ≡ c.parser_counter
  storage :
      (id : ℕ)
      → find id c'.storage
        ≡ (if id == j then (answer handles call (find j c.storage)).0 else find id c.storage)

receive-IsAnswered :
    (handles : Handles) (j now : ℕ) (text : Str) (c : Controller) (p : Parser)
    → find j c.storage ≡ some p
    → (c' : Controller) × (r : Reply) × (receive_line handles j now text c ≡ ok (c', r))
      × IsAnswered handles (line now text) j c c' r
unfolding receive_line answer
receive-IsAnswered handles j now text c p f =
    let (p', r) = handle_line handles now text p in
    (
      record c { storage = assign j p' c.storage },
      r,
      ground (arith, f),
      record {
        reply = ground (arith, f);
        counter = refl;
        storage = λ id. ground (arith, f, find-assign id j p' c.storage);
      },
    )

remove_parser-IsAnswered :
    (handles : Handles) (j now : ℕ) (c : Controller)
    → IsAnswered handles
        (finish now)
        j
        c
        (remove_parser handles j now c).0
        (remove_parser handles j now c).1
unfolding remove_parser answer
remove_parser-IsAnswered handles j now c = elim (Option-cases (find j c.storage)) [
  | inl f ↦ record {
    reply = ground (arith, f);
    counter = ground (arith, f);
    storage = λ id. ground (arith, f, ℕ_discrete id j);
  }
  | inr (p, f) ↦
      let (p', r) = terminate handles now p in
      elim (Option-cases r.thrown) [
        | inl g ↦ record {
          reply = ground (arith, f, g);
          counter = ground (arith, f, g);
          storage = λ id. ground (arith, f, g, find-erase id j c.storage);
        }
        | inr (x, g) ↦ record {
          reply = ground (arith, f, g);
          counter = ground (arith, f, g);
          storage = λ id. ground (arith, f, g, find-assign id j p' c.storage);
        }
      ]
]

-- What a run promises to each connection that was made before it.
abbrev pub IsServed : Handles → List Request → Controller → Type 0
IsServed handles requests c =
    (last : Controller) × (all : List (ℕ × Reply)) × (serve handles requests c ≡ ok (last, all))
    × ((id : ℕ)
        → id < c.parser_counter
        → replies_to id all ≡ replies handles (calls_of id requests) (find id c.storage))

receive-IsServed :
    (handles : Handles) (j now : ℕ) (text : Str) (rest : List Request) (c c' : Controller)
    (r : Reply)
    → receive_line handles j now text c ≡ ok (c', r)
    → IsAnswered handles (line now text) j c c' r
    → IsServed handles rest c'
    → IsServed handles (receive j now text ∷ rest) c
unfolding serve calls_of replies_to replies
receive-IsServed handles j now text rest c c' r e w (last, all, f, g) = (
  last,
  (j, r) ∷ all,
  ground (arith, e, f),
  λ id l.
      ground (arith, g id (omega (arith, l, w.counter)), w.storage id, w.reply, ℕ_discrete id j),
)

disconnect-IsServed :
    (handles : Handles) (j now : ℕ) (rest : List Request) (c : Controller)
    → IsServed handles rest (remove_parser handles j now c).0
    → IsServed handles (disconnect j now ∷ rest) c
unfolding serve calls_of replies_to replies
disconnect-IsServed handles j now rest c (last, all, f, g) =
    let w = remove_parser-IsAnswered handles j now c in
    (
      last,
      (j, (remove_parser handles j now c).1) ∷ all,
      ground (arith, f),
      λ id l.
          ground
            (arith, g id (omega (arith, l, w.counter)), w.storage id, w.reply, ℕ_discrete id j),
    )

receive-AreStored :
    (handles : Handles) (j now : ℕ) (text : Str) (opened : List ℕ) (c c' : Controller) (r : Reply)
    → IsAnswered handles (line now text) j c c' r
    → find j c.storage ≢ none
    → AreStored opened c
    → AreStored opened c'
unfolding answer
receive-AreStored handles j now text opened c c' r w n a id o =
    elim (Option-cases (find j c.storage)) [
      | inl f ↦ absurd (n f)
      | inr (p, f) ↦ λ m. ground (arith, f, m, a id o, w.storage id)
    ]

remove_parser-AreStored :
    (handles : Handles) (j now : ℕ) (opened : List ℕ) (c : Controller)
    → AreStored opened c
    → AreStored (close j opened) (remove_parser handles j now c).0
remove_parser-AreStored handles j now opened c a id o m =
    let w = remove_parser-IsAnswered handles j now c in
    let (n, q) = is_open-close id j opened o in ground (arith, m, n, a id q, w.storage id)

connect-counter :
    (n : ℕ) (c : Controller)
    → c.parser_counter + 1 < u64_mod
    → (connect_parser n c).1.parser_counter ≡ c.parser_counter + 1
unfolding connect_parser
connect-counter n c l = omega (arith, l)

connect-other :
    (n id : ℕ) (c : Controller)
    → id < c.parser_counter
    → find id (connect_parser n c).1.storage ≡ find id c.storage
unfolding connect_parser
connect-other n id c l =
    ground (arith, l, find-assign id c.parser_counter (make_parser n) c.storage)

serve-IsServed :
    (handles : Handles) (requests : List Request) (c : Controller) (opened : List ℕ)
    → AreStored opened c
    → IsProper c.parser_counter opened requests
    → c.parser_counter + length requests < u64_mod
    → IsServed handles requests c
unfolding serve calls_of replies_to replies
serve-IsServed handles [] c opened a p l = (c, [], refl, λ id h. refl)
serve-IsServed handles (connect n ∷ rest) c opened a p l =
    let c1 = (connect_parser n c).1 in
    let k = connect-counter n c (omega (arith, l)) in
    let (last, all, f, g) =
      serve-IsServed handles rest c1 (c.parser_counter ∷ opened) (connect-AreStored n opened c a)
        (subst (λ i. IsProper i (c.parser_counter ∷ opened) rest) (sym k) p)
        (omega (arith, k, l)) in
    (last, all, f, λ id h. ground (arith, g id (omega (arith, h, k)), h, connect-other n id c))
serve-IsServed handles (receive j now text ∷ rest) c opened a (o, p) l =
    elim (Option-cases (find j c.storage)) [
      | inl f ↦ absurd (a j o f)
      | inr (q, f) ↦
          let (c', r, e, w) = receive-IsAnswered handles j now text c q f in
          receive-IsServed handles j now text rest c c' r e w (
            serve-IsServed handles rest c' opened
              (receive-AreStored handles j now text opened c c' r w (a j o) a)
              (subst (λ k. IsProper k opened rest) (sym w.counter) p) (omega (arith, l, w.counter)))
    ]
serve-IsServed handles (disconnect j now ∷ rest) c opened a p l =
    let w = remove_parser-IsAnswered handles j now c in
    disconnect-IsServed handles j now rest c (
      serve-IsServed handles rest (remove_parser handles j now c).0 (close j opened)
        (remove_parser-AreStored handles j now opened c a)
        (subst (λ k. IsProper k (close j opened) rest) (sym w.counter) p)
        (omega (arith, l, w.counter)))

-- When the storage holds the open connections, every connection receives while it is open, and the
-- counter cannot wrap around, all calls are served, in whatever order those of different connections
-- come; and a connection that was made before is answered as if its parser were alone.
pub serve-replies :
    (handles : Handles) (requests : List Request) (c : Controller) (opened : List ℕ) (id : ℕ)
    → AreStored opened c
    → IsProper c.parser_counter opened requests
    → c.parser_counter + length requests < u64_mod
    → id < c.parser_counter
    → (last : Controller) × (all : List (ℕ × Reply)) × (serve handles requests c ≡ ok (last, all))
      × (replies_to id all ≡ replies handles (calls_of id requests) (find id c.storage))
serve-replies handles requests c opened id a p l k =
    let (last, all, s, w) = serve-IsServed handles requests c opened a p l in (last, all, s, w id k)
