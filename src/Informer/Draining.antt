-- ===== src/Informer/Draining.antt =====
-- The retries of control-plane/helper/controller/controller.go come to an end.
use mathlib.Core.Path.{subst}
use consul_k8s.Base.{
  ◌≡◌, ◌≢◌, ◌⊎◌, refl, sym, ap, ◌∙◌, ℕ, zero, suc, ◌+◌, ◌-◌, ◌≤◌, ◌<◌, String, true, arith,
}
use consul_k8s.Base.{Option, none, some, List, [], ◌∷◌, ◌++◌, ltb, All, Bool-cases}
use consul_k8s.Base.{inl, inr}
use consul_k8s.Informer.{
  Raw, event, unexpected, Queue, Resource, Indexer, call, settle, process_single, run,
}

-- What the code relies on of the queue of client-go. `pending` has the items that are still handed
-- out, also those that wait for their delay, in the order in which they are.
pub record IsQueue {O Q : Type 0} (q : Queue O Q) (pending : Q → List (Raw O)) : Type 0 where
  pub get_first :
      (w : Q) (x : Raw O) (xs : List (Raw O))
      → pending w ≡ x ∷ xs
      → (w' : Q) × (q.get w ≡ some (x, w'))
        × (pending w' ≡ xs)
        × ((y : Raw O) → q.num_requeues w' y ≡ q.num_requeues w y)
  pub pending-done : (x : Raw O) (w : Q) → pending (q.done x w) ≡ pending w
  pub requeues-done : (x y : Raw O) (w : Q) → q.num_requeues (q.done x w) y ≡ q.num_requeues w y
  pub pending-forget : (x : Raw O) (w : Q) → pending (q.forget x w) ≡ pending w
  pub requeues-forget :
      (x y : Raw O) (w : Q) → y ≢ x → q.num_requeues (q.forget x w) y ≡ q.num_requeues w y
  pub pending-add :
      (x : Raw O) (w : Q)
      → (before after : List (Raw O)) × (pending w ≡ before ++ after)
        × (pending (q.add_rate_limited x w) ≡ before ++ x ∷ after)
  pub requeues-add_self :
      (x : Raw O) (w : Q) → q.num_requeues (q.add_rate_limited x w) x ≡ suc (q.num_requeues w x)
  pub requeues-add_other :
      (x y : Raw O) (w : Q) → y ≢ x → q.num_requeues (q.add_rate_limited x w) y ≡ q.num_requeues w y

-- No item waits twice.
abbrev pub AreDistinct : {O : Type 0} → List (Raw O) → Type 0
AreDistinct [] = Unit
AreDistinct (x ∷ xs) = All (λ y. y ≢ x) xs × AreDistinct xs

-- The calls that the items may still take: six for an item that has not failed yet.
abbrev pub calls_left : {O : Type 0} → (Raw O → ℕ) → List (Raw O) → ℕ
calls_left requeues [] = 0
calls_left requeues (x ∷ xs) = suc (5 - requeues x) + calls_left requeues xs

List-cases : {A : Type 0} (xs : List A) → (xs ≡ []) ⊎ ((y : A) × (ys : List A) × (xs ≡ y ∷ ys))
List-cases [] = inl refl
List-cases (y ∷ ys) = inr (y, ys, refl)

module _ {O : Type 0} where
  calls_left-insert :
      (f : Raw O → ℕ) (x : Raw O) (xs ys : List (Raw O))
      → calls_left f (xs ++ x ∷ ys) ≡ suc (5 - f x) + calls_left f (xs ++ ys)
  calls_left-insert f x [] ys = refl
  calls_left-insert f x (z ∷ xs) ys = omega (arith, calls_left-insert f x xs ys)

  calls_left-other :
      (f g : Raw O → ℕ) (x : Raw O) (ys : List (Raw O))
      → ((y : Raw O) → y ≢ x → g y ≡ f y)
      → All (λ y. y ≢ x) ys
      → calls_left g ys ≡ calls_left f ys
  calls_left-other f g x [] same apart = refl
  calls_left-other f g x (y ∷ ys) same apart =
      rw (same y apart.0, calls_left-other f g x ys same apart.1) refl

  calls_left-same :
      (f g : Raw O → ℕ) (ys : List (Raw O))
      → ((y : Raw O) → g y ≡ f y)
      → calls_left g ys ≡ calls_left f ys
  calls_left-same f g [] same = refl
  calls_left-same f g (y ∷ ys) same = rw (same y, calls_left-same f g ys same) refl

  All-insert :
      (P : Raw O → Type 0) (x : Raw O) (xs ys : List (Raw O))
      → P x
      → All P (xs ++ ys)
      → All P (xs ++ x ∷ ys)
  All-insert P x [] ys p ps = (p, ps)
  All-insert P x (z ∷ xs) ys p ps = (ps.0, All-insert P x xs ys p ps.1)

  AreDistinct-insert :
      (x : Raw O) (xs ys : List (Raw O))
      → All (λ y. y ≢ x) (xs ++ ys)
      → AreDistinct (xs ++ ys)
      → AreDistinct (xs ++ x ∷ ys)
  AreDistinct-insert x [] ys apart d = (apart, d)
  AreDistinct-insert x (z ∷ xs) ys apart d = (
    All-insert (λ y. y ≢ z) x xs ys (λ e. apart.0 (sym e)) d.0,
    AreDistinct-insert x xs ys apart.1 d.1,
  )

module _ {O Q : Type 0} (q : Queue O Q) (pending : Q → List (Raw O)) (l : IsQueue q pending) where
  -- What is left to do in a queue.
  abbrev left : Q → ℕ
  left w = calls_left (q.num_requeues w) (pending w)

  left-forget : (x : Raw O) (w : Q) → All (λ y. y ≢ x) (pending w) → left (q.forget x w) ≡ left w
  left-forget x w apart = rw (l.pending-forget x w) (
      calls_left-other (q.num_requeues w) (q.num_requeues (q.forget x w)) x (pending w)
        (λ y ne. l.requeues-forget x y w ne) apart)

  left-add :
      (x : Raw O) (w : Q)
      → All (λ y. y ≢ x) (pending w)
      → AreDistinct (pending w)
      → (left (q.add_rate_limited x w) ≡ left w + suc (5 - suc (q.num_requeues w x)))
        × AreDistinct (pending (q.add_rate_limited x w))
  left-add x w apart d =
      let (before, after, split, added) = l.pending-add x w in
      let g = q.num_requeues (q.add_rate_limited x w) in
      let others : calls_left g (pending w) ≡ calls_left (q.num_requeues w) (pending w) =
        calls_left-other (q.num_requeues w) g x (pending w) (λ y ne. l.requeues-add_other x y w ne)
          apart in
      let grown : calls_left g (pending (q.add_rate_limited x w))
          ≡ suc (5 - g x) + calls_left g (pending w) =
        rw (added, split) (calls_left-insert g x before after) in
      (
        omega (arith, others, grown, ap (λ n. suc (5 - n)) (l.requeues-add_self x w)),
        rw added (
            AreDistinct-insert x before after (subst (All (λ y. y ≢ x)) split apart)
              (subst AreDistinct split d)),
      )

  -- A call that is over leaves less to do than its item made.
  left-settle :
      (x : Raw O) (e : Option String) (w : Q)
      → All (λ y. y ≢ x) (pending w)
      → AreDistinct (pending w)
      → (left (settle q x e w) < left w + suc (5 - q.num_requeues w x))
        × AreDistinct (pending (settle q x e w))
  unfolding settle
  left-settle x none w apart d = (omega (arith, left-forget x w apart), rw (l.pending-forget x w) d)
  left-settle x (some e) w apart d = elim (Bool-cases (ltb (q.num_requeues w x) 5)) [
    | inr again ↦ rw again (omega (arith, left-forget x w apart), rw (l.pending-forget x w) d)
    | inl again ↦
        let added = left-add x w apart d in rw again (ground (arith, again, added.0), added.1)
  ]

  left-done :
      (x : Raw O) (w : Q) → (left (q.done x w) ≡ left w) × (pending (q.done x w) ≡ pending w)
  left-done x w = (
    rw (l.pending-done x w) (
        calls_left-same (q.num_requeues w) (q.num_requeues (q.done x w)) (pending w)
          (λ y. l.requeues-done x y w)),
    l.pending-done x w,
  )

  -- A call that has taken its item leaves less to do than the item made.
  taken-left :
      {S : Type 0} (r : Resource O S) (index : Indexer O) (w w1 : Q) (s : S) (x : Raw O)
      → q.get w ≡ some (x, w1)
      → All (λ y. y ≢ x) (pending w1)
      → AreDistinct (pending w1)
      → let (more, w', s') = process_single q r index (w, s) in
        (more ≡ true)
        × (left w' < left w1 + suc (5 - q.num_requeues w1 x))
        × AreDistinct (pending w')
  unfolding process_single
  taken-left r index w w1 s unexpected got apart d =
      let over = left-done unexpected w1 in
      rw (got, process_single) (refl, omega (arith, over.0), rw (over.1) d)
  taken-left r index w w1 s (event key obj) got apart d =
      let e = (call r index key obj s).1 in
      let settled = left-settle (event key obj) e w1 apart d in
      let over = left-done (event key obj) (settle q (event key obj) e w1) in
      rw (got, process_single) (refl, omega (arith, over.0, settled.0), rw (over.1) settled.1)

  -- A call whose item is first leaves less to do, whatever the callbacks do.
  process_single-left :
      {S : Type 0} (r : Resource O S) (index : Indexer O) (w : Q) (s : S) (x : Raw O)
      (xs : List (Raw O))
      → pending w ≡ x ∷ xs
      → AreDistinct (pending w)
      → let (more, w', s') = process_single q r index (w, s) in
        (more ≡ true) × (left w' < left w) × AreDistinct (pending w')
  process_single-left r index w s x xs first d =
      let (w1, got, rest, same) = l.get_first w x xs first in
      let d1 : AreDistinct (x ∷ xs) = subst AreDistinct first d in
      let (went, less, d') = taken-left r index w w1 s x got (rw rest d1.0) (rw rest d1.1) in
      let before : left w ≡ suc (5 - q.num_requeues w x) + calls_left (q.num_requeues w) xs =
        ap (calls_left (q.num_requeues w)) first in
      let after : left w1 ≡ calls_left (q.num_requeues w) xs =
        ap (calls_left (q.num_requeues w1)) rest
        ∙ calls_left-same (q.num_requeues w) (q.num_requeues w1) xs same in
      (went, omega (arith, less, before, after, ap (λ n. suc (5 - n)) (same x)), d')

  run-drains :
      {S : Type 0} (r : Resource O S) (bound : ℕ) (index : ℕ → Indexer O) (w : Q) (s : S)
      → left w ≤ bound
      → AreDistinct (pending w)
      → (n : ℕ) × (n ≤ left w) × (pending (run q r index n (w, s)).0 ≡ [])
  unfolding run
  run-drains r zero index w s enough d = elim (List-cases (pending w)) [
    | inl empty ↦ (zero, omega arith, empty)
    | inr (x, xs, first) ↦
        absurd (omega (arith, enough, (process_single-left r (index zero) w s x xs first d).1))
  ]
  run-drains r (suc b) index w s enough d = elim (List-cases (pending w)) [
    | inl empty ↦ (zero, omega arith, empty)
    | inr (x, xs, first) ↦
        let (went, less, d') = process_single-left r (index zero) w s x xs first d in
        let (more, w', s') = process_single q r (index zero) (w, s) in
        let (n, few, drained) =
          run-drains r b (λ k. index (suc k)) w' s' (omega (arith, less, enough)) d' in
        (suc n, omega (arith, few, less), rw went drained)
  ]

-- If no further events arrive and no item waits twice in the queue, then after at most six calls of
-- processSingle for each item that has not failed yet, fewer for those that have, the queue is empty,
-- whatever the callbacks and the informer's index answer: no item is retried for ever.
pub process_single-terminates :
    {O Q S : Type 0} (q : Queue O Q) (r : Resource O S) (pending : Q → List (Raw O))
    → IsQueue q pending
    → (index : ℕ → Indexer O) (w : Q) (s : S) → AreDistinct (pending w)
    → (n : ℕ) × (n ≤ calls_left (q.num_requeues w) (pending w))
      × (pending (run q r index n (w, s)).0 ≡ [])
process_single-terminates q r pending l index w s d =
    run-drains q pending l r (calls_left (q.num_requeues w) (pending w)) index w s (omega arith) d
