-- ===== src/ThreadPool/Wakeups/Awake.antt =====
-- The threads that wait and do not sleep.
use cpp.Prelude.{
  ℕ, zero, suc, ◌+◌, ◌<◌, ◌≡◌, refl, Bool, true, false, some, List, [], ◌∷◌, arith, get_elem?, set,
  replicate,
}
use cpp.ThreadPool.{Worker, waiting, running, stopped}
use cpp.ThreadPool.Wakeups.{some_asleep}

abbrev pub is_waiting : Worker → ℕ
is_waiting waiting = 1
is_waiting (running id) = 0
is_waiting stopped = 0

unfoldable pub awake : List Worker → List Bool → ℕ
awake (w ∷ ws) (true ∷ asleep) = awake ws asleep
awake (w ∷ ws) (false ∷ asleep) = is_waiting w + awake ws asleep
awake [] asleep = 0
awake (w ∷ ws) [] = 0

-- There is one flag for each thread, and only a thread that waits sleeps.
abbrev pub AreFlags : List Worker → List Bool → Type 0
AreFlags [] [] = Unit
AreFlags [] (b ∷ asleep) = ⊥
AreFlags (w ∷ ws) [] = ⊥
AreFlags (w ∷ ws) (true ∷ asleep) = (w ≡ waiting) × AreFlags ws asleep
AreFlags (w ∷ ws) (false ∷ asleep) = AreFlags ws asleep

pub AreFlags-replicate : (n : ℕ) → AreFlags (replicate n waiting) (replicate n false)
AreFlags-replicate zero = tt
AreFlags-replicate (suc n) = AreFlags-replicate n

pub replicate-awake : (n : ℕ) → some_asleep (replicate n false) ≡ false
replicate-awake zero = refl
replicate-awake (suc n) = replicate-awake n

-- A thread that is awake goes on.
pub set-AreFlags :
    (i : ℕ) (w : Worker) (ws : List Worker) (asleep : List Bool)
    → get_elem? asleep i ≡ some false
    → AreFlags ws asleep
    → AreFlags (set ws i w) asleep
set-AreFlags i w [] asleep f a = a
set-AreFlags i w (v ∷ ws) [] f a = absurd a
set-AreFlags zero w (v ∷ ws) (true ∷ asleep) f a = cc
set-AreFlags zero w (v ∷ ws) (false ∷ asleep) f a = a
set-AreFlags (suc i) w (v ∷ ws) (true ∷ asleep) f a = (a.0, set-AreFlags i w ws asleep f a.1)
set-AreFlags (suc i) w (v ∷ ws) (false ∷ asleep) f a = set-AreFlags i w ws asleep f a

pub awake-set :
    (i : ℕ) (v w : Worker) (ws : List Worker) (asleep : List Bool)
    → get_elem? ws i ≡ some v
    → get_elem? asleep i ≡ some false
    → awake (set ws i w) asleep + is_waiting v ≡ awake ws asleep + is_waiting w
unfolding awake
awake-set i v w [] asleep e f = cc
awake-set i v w (u ∷ ws) [] e f = cc
awake-set zero v w (u ∷ ws) (true ∷ asleep) e f = cc
awake-set zero v w (u ∷ ws) (false ∷ asleep) e f = ground (arith, e)
awake-set (suc i) v w (u ∷ ws) (true ∷ asleep) e f = awake-set i v w ws asleep e f
awake-set (suc i) v w (u ∷ ws) (false ∷ asleep) e f = omega (arith, awake-set i v w ws asleep e f)

-- A thread that sleeps is woken up.
pub woken :
    (i : ℕ) (ws : List Worker) (asleep : List Bool)
    → get_elem? asleep i ≡ some true
    → AreFlags ws asleep
    → AreFlags ws (set asleep i false) × (awake ws (set asleep i false) ≡ suc (awake ws asleep))
unfolding awake
woken i [] [] f a = cc
woken i [] (b ∷ asleep) f a = absurd a
woken i (v ∷ ws) [] f a = absurd a
woken zero (v ∷ ws) (true ∷ asleep) f a = (a.1, ground (arith, a.0))
woken zero (v ∷ ws) (false ∷ asleep) f a = cc
woken (suc i) (v ∷ ws) (true ∷ asleep) f a = let (b, e) = woken i ws asleep f a.1 in ((a.0, b), e)
woken (suc i) (v ∷ ws) (false ∷ asleep) f a =
    let (b, e) = woken i ws asleep f a in (b, omega (arith, e))

pub sleep-AreFlags :
    (i : ℕ) (ws : List Worker) (asleep : List Bool)
    → get_elem? ws i ≡ some waiting
    → get_elem? asleep i ≡ some false
    → AreFlags ws asleep
    → AreFlags ws (set asleep i true)
sleep-AreFlags i [] asleep e f a = cc
sleep-AreFlags i (v ∷ ws) [] e f a = absurd a
sleep-AreFlags zero (v ∷ ws) (true ∷ asleep) e f a = cc
sleep-AreFlags zero (v ∷ ws) (false ∷ asleep) e f a = (ground (arith, e), a)
sleep-AreFlags (suc i) (v ∷ ws) (true ∷ asleep) e f a = (a.0, sleep-AreFlags i ws asleep e f a.1)
sleep-AreFlags (suc i) (v ∷ ws) (false ∷ asleep) e f a = sleep-AreFlags i ws asleep e f a

-- A thread that does not wait does not sleep.
pub busy-awake :
    (i : ℕ) (v : Worker) (ws : List Worker) (asleep : List Bool)
    → get_elem? ws i ≡ some v
    → is_waiting v ≡ 0
    → AreFlags ws asleep
    → get_elem? asleep i ≡ some false
busy-awake i v [] asleep e z a = cc
busy-awake i v (u ∷ ws) [] e z a = absurd a
busy-awake zero v (u ∷ ws) (true ∷ asleep) e z a = absurd (ground (arith, e, z, a.0))
busy-awake zero v (u ∷ ws) (false ∷ asleep) e z a = refl
busy-awake (suc i) v (u ∷ ws) (true ∷ asleep) e z a = busy-awake i v ws asleep e z a.1
busy-awake (suc i) v (u ∷ ws) (false ∷ asleep) e z a = busy-awake i v ws asleep e z a

pub find_awake :
    (ws : List Worker) (asleep : List Bool)
    → 0 < awake ws asleep
    → (i : ℕ) × (get_elem? ws i ≡ some waiting) × (get_elem? asleep i ≡ some false)
unfolding awake
find_awake [] asleep h = absurd (omega arith)
find_awake (w ∷ ws) [] h = absurd (omega arith)
find_awake (w ∷ ws) (true ∷ asleep) h = let (i, e, f) = find_awake ws asleep h in (suc i, e, f)
find_awake (waiting ∷ ws) (false ∷ asleep) h = (0, refl, refl)
find_awake (running id ∷ ws) (false ∷ asleep) h =
    let (i, e, f) = find_awake ws asleep (omega (arith, h)) in (suc i, e, f)
find_awake (stopped ∷ ws) (false ∷ asleep) h =
    let (i, e, f) = find_awake ws asleep (omega (arith, h)) in (suc i, e, f)

pub find_asleep :
    (asleep : List Bool) → some_asleep asleep ≡ true → (i : ℕ) × (get_elem? asleep i ≡ some true)
find_asleep [] h = cc
find_asleep (true ∷ asleep) h = (0, refl)
find_asleep (false ∷ asleep) h = let (i, e) = find_asleep asleep h in (suc i, e)

-- A thread that waits, when no thread sleeps, is awake.
pub none_asleep :
    (i : ℕ) (ws : List Worker) (asleep : List Bool)
    → AreFlags ws asleep
    → some_asleep asleep ≡ false
    → get_elem? ws i ≡ some waiting
    → 0 < awake ws asleep
unfolding awake
none_asleep i [] asleep a h e = cc
none_asleep i (w ∷ ws) [] a h e = absurd a
none_asleep i (w ∷ ws) (true ∷ asleep) a h e = cc
none_asleep zero (w ∷ ws) (false ∷ asleep) a h e = ground (arith, e)
none_asleep (suc i) (w ∷ ws) (false ∷ asleep) a h e = omega (arith, none_asleep i ws asleep a h e)
