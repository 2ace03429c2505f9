-- ===== src/ThreadPool/Counts.antt =====
-- Tasks and threads counted.
use cpp.Prelude.{
  ℕ, zero, suc, ◌+◌, ◌≡◌, refl, some, List, [], ◌∷◌, ◌++◌, arith, ◌==◌, if◌then◌else◌, get_elem?,
  set, replicate,
}
use cpp.ThreadPool.{Task, execute, terminate, Worker, waiting, running}

-- How often a task stands in the queue.
abbrev pub queued_one : ℕ → Task → ℕ
queued_one v (execute id) = if v == id then 1 else 0
queued_one v terminate = 0

unfoldable pub queued : ℕ → List Task → ℕ
queued v [] = 0
queued v (t ∷ q) = queued_one v t + queued v q

pub queued-append : (v : ℕ) (xs ys : List Task) → queued v (xs ++ ys) ≡ queued v xs + queued v ys
unfolding queued
queued-append v [] ys = omega arith
queued-append v (t ∷ xs) ys = omega (arith, queued-append v xs ys)

-- How many threads satisfy a weight of 0 or 1.
unfoldable pub total : (Worker → ℕ) → List Worker → ℕ
total w [] = 0
total w (x ∷ ws) = w x + total w ws

pub total-set :
    (w : Worker → ℕ) (ws : List Worker) (i : ℕ) (x y : Worker)
    → get_elem? ws i ≡ some x
    → total w (set ws i y) + w x ≡ total w ws + w y
unfolding total
total-set w [] i x y h = cc
total-set w (z ∷ ws) zero x y h = ground (arith, h)
total-set w (z ∷ ws) (suc i) x y h = omega (arith, total-set w ws i x y h)

pub total-replicate : (w : Worker → ℕ) (n : ℕ) → w waiting ≡ 0 → total w (replicate n waiting) ≡ 0
unfolding total
total-replicate w zero h = refl
total-replicate w (suc n) h = omega (arith, h, total-replicate w n h)

abbrev pub runs : ℕ → Worker → ℕ
runs v (running id) = if v == id then 1 else 0
runs v _ = 0

-- How often a task is among finished ones.
unfoldable pub count : ℕ → List ℕ → ℕ
count v [] = 0
count v (x ∷ xs) = (if v == x then 1 else 0) + count v xs

pub count-append : (v : ℕ) (xs ys : List ℕ) → count v (xs ++ ys) ≡ count v xs + count v ys
unfolding count
count-append v [] ys = omega arith
count-append v (x ∷ xs) ys = omega (arith, count-append v xs ys)
