-- ===== src/Digest/Budget.antt =====
-- src/digest_executor.rs: the worker budget of the native pool, which all executors share. The
-- compare-and-exchange of `try_acquire` is one atomic step: a failed exchange only loads again.
use isomdl_elevenid.Common.{
  ℕ, ◌+◌, ◌-◌, ◌≤◌, ◌≡◌, refl, ◌||◌, List, [], ◌∷◌, ◌++◌, Option, none, some, ltb, if◌then◌else◌,
  arith,
}

-- `ParallelDigestWorkerBudget`
pub record Budget : Type 0 where
  pub available : ℕ
  pub capacity : ℕ

unfoldable pub new : ℕ → Budget
new capacity = record { available = capacity; capacity = capacity }

-- What is left in the budget, where the lease is granted.
unfoldable pub try_acquire : ℕ → Budget → Option Budget
try_acquire worker_count budget =
    if ltb worker_count 2 || ltb budget.capacity worker_count
    then none
    else if ltb budget.available worker_count
    then none
    else some (record { available = budget.available - worker_count; capacity = budget.capacity })

-- The drop of a lease of `worker_count` workers.
unfoldable pub release : ℕ → Budget → Budget
release worker_count budget = record {
  available = budget.available + worker_count;
  capacity = budget.capacity;
}

-- The budget with the leases that are out. Calls on any thread take leases and drop them.
pub data Step : Budget × List ℕ → Budget × List ℕ → Type 0 where
  acquire :
      {budget budget' : Budget} {leases : List ℕ} (worker_count : ℕ)
      → try_acquire worker_count budget ≡ some budget'
      → Step (budget, leases) (budget', worker_count ∷ leases)
  drop_lease :
      {budget : Budget} (before : List ℕ) (worker_count : ℕ) (after : List ℕ)
      → Step (budget, before ++ worker_count ∷ after) (release worker_count budget, before ++ after)

pub data Steps : Budget × List ℕ → Budget × List ℕ → Type 0 where
  stay : {s : Budget × List ℕ} → Steps s s
  step : {s t u : Budget × List ℕ} → Steps s t → Step t u → Steps s u

abbrev pub sum : List ℕ → ℕ
sum [] = 0
sum (x ∷ xs) = x + sum xs

sum-append : (xs ys : List ℕ) → sum (xs ++ ys) ≡ sum xs + sum ys
sum-append [] ys = omega arith
sum-append (x ∷ xs) ys = omega (arith, sum-append xs ys)

pub try_acquire-granted :
    (w : ℕ) (b b' : Budget)
    → try_acquire w b ≡ some b'
    → (2 ≤ w) × (w ≤ b.available) × (b'.available + w ≡ b.available) × (b'.capacity ≡ b.capacity)
unfolding try_acquire
try_acquire-granted w b b' h = ground arith

IsBalanced : ℕ → Budget × List ℕ → Type 0
IsBalanced capacity (budget, leases) =
    (budget.capacity ≡ capacity) × (budget.available + sum leases ≡ capacity)

Step-IsBalanced :
    (capacity : ℕ) (s t : Budget × List ℕ)
    → Step s t
    → IsBalanced capacity s
    → IsBalanced capacity t
unfolding release IsBalanced
Step-IsBalanced capacity s t (acquire {budget} {budget'} {leases} w granted) (c, b) =
    let (_, _, taken, same) = try_acquire-granted w budget budget' granted in
    (omega arith, omega arith)
Step-IsBalanced capacity s t (drop_lease {budget} before w after) (c, b) =
    (omega arith, omega (arith, sum-append before (w ∷ after), sum-append before after))

-- From a new pool, however the calls take and drop their leases: the workers that are free and those
-- on lease are together the capacity of the pool, so no more than that are ever out.
pub Steps-balanced :
    (capacity : ℕ) (budget : Budget) (leases : List ℕ)
    → Steps (new capacity, []) (budget, leases)
    → (budget.capacity ≡ capacity) × (budget.available + sum leases ≡ capacity)
unfolding IsBalanced new
Steps-balanced capacity budget leases h =
    go (new capacity, []) (budget, leases) h (refl, omega arith)
  where
    go : (s t : Budget × List ℕ) → Steps s t → IsBalanced capacity s → IsBalanced capacity t
    go s t stay b = b
    go s t (step {t = u} h last) b = Step-IsBalanced capacity u t last (go s u h b)
