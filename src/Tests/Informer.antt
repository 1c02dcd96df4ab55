-- ===== src/Tests/Informer.antt =====
-- Tests of control-plane/helper/controller over a queue that is kept in memory.
use consul_k8s.Base.{
  ◌≡◌, refl, ap, ℕ, suc, ◌≤◌, Bool, true, false, Option, none, some, List, [], ◌∷◌, ok,
}
use consul_k8s.Base.{◌==◌, if◌then◌else◌, string_dec, arith}
use consul_k8s.Informer.{Raw, event, unexpected, Queue, Resource, Indexer, run}
use consul_k8s.Informer.Draining.{IsQueue, calls_left, process_single-terminates}

abbrev Item : Type 0
Item = Raw Bool

abbrev same : Item → Item → Bool
same unexpected unexpected = true
same (event k true) (event j true) = k == j
same (event k false) (event j false) = k == j
same _ _ = false

same-eq : (y x : Item) → same y x ≡ true → y ≡ x
same-eq unexpected unexpected h = refl
same-eq (event k true) (event j true) h = elim (string_dec k j) [
  | yes e ↦ ap (λ k. event k true) e
  | no other ↦ ground (arith, h, other)
]
same-eq (event k false) (event j false) h = elim (string_dec k j) [
  | yes e ↦ ap (λ k. event k false) e
  | no other ↦ ground (arith, h, other)
]
same-eq unexpected (event j b) h = ground (arith, h)
same-eq (event k b) unexpected h = ground (arith, h)
same-eq (event k true) (event j false) h = ground (arith, h)
same-eq (event k false) (event j true) h = ground (arith, h)

same_self : (x : Item) → same x x ≡ true
same_self unexpected = refl
same_self (event k true) = ground arith
same_self (event k false) = ground arith

-- The items in their order, and how often each has been put back.
abbrev Memory : Type 0
Memory = List Item × (Item → ℕ)

abbrev take_first : Memory → Option (Item × Memory)
take_first ([], f) = none
take_first (x ∷ xs, f) = some (x, (xs, f))

abbrev queue : Queue Bool Memory
queue = record {
  add = λ x (xs, f). (x ∷ xs, f);
  get = take_first;
  done = λ x w. w;
  forget = λ x (xs, f). (xs, λ y. if same y x then 0 else f y);
  add_rate_limited = λ x (xs, f). (x ∷ xs, λ y. if same y x then suc (f y) else f y);
  num_requeues = λ (xs, f) x. f x;
}

abbrev waiting : Memory → List Item
waiting (xs, f) = xs

take_first_lem :
    (w : Memory) (x : Item) (xs : List Item)
    → waiting w ≡ x ∷ xs
    → (w' : Memory) × (take_first w ≡ some (x, w'))
      × (waiting w' ≡ xs)
      × ((y : Item) → w'.1 y ≡ w.1 y)
take_first_lem (ys, f) x xs h = ((xs, f), ap (λ zs. take_first (zs, f)) h, refl, λ y. refl)

queue-IsQueue : IsQueue queue waiting
queue-IsQueue = record {
  get_first = take_first_lem;
  pending-done = λ x w. refl;
  requeues-done = λ x y w. refl;
  pending-forget = λ x w. refl;
  requeues-forget = λ x y w other. ground (arith, other, same-eq y x);
  pending-add = λ x w. ([], waiting w, refl, refl);
  requeues-add_self = λ x w. ground (arith, same_self x);
  requeues-add_other = λ x y w other. ground (arith, other, same-eq y x);
}

-- A callback that always fails, and counts its calls.
abbrev failing : Resource Bool ℕ
failing = record {
  upsert = λ key item n. (suc n, some "down");
  delete = λ key item n. (suc n, some "down");
}

abbrev empty_index : ℕ → Indexer Bool
empty_index n key = ok none

abbrev two : Memory
two = (event "shop/web" true ∷ unexpected ∷ [], λ x. 0)

-- The failing event is handed out six times and then dropped, the other one once.
dropped : (run queue failing empty_index 7 (two, 0)).1 ≡ 6
unfolding run string_dec
dropped = refl

process_single-terminates_example :
    (n : ℕ) × (n ≤ calls_left (queue.num_requeues two) (waiting two))
    × (waiting (run queue failing empty_index n (two, 0)).0 ≡ [])
process_single-terminates_example =
    process_single-terminates queue failing waiting queue-IsQueue empty_index two 0
      ((λ e. ground (arith, e), tt), (tt, tt))
