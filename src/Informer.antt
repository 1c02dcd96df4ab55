-- ===== src/Informer.antt =====
-- control-plane/helper/controller/controller.go: the worker of a Controller, which takes events of an
-- informer from a queue and hands them to the callbacks of a Resource. The queue of client-go is a
-- parameter, and the index of the informer is what a call reads of it.
pub mod Draining
use consul_k8s.Base.{
  ℕ, zero, suc, String, Bool, true, false, Option, none, some, List, [], ◌∷◌, Result, ok, err,
}
use consul_k8s.Base.{if◌then◌else◌, ltb}

-- `Event`, or a value of another type, which the queue may hold too.
pub data Raw (O : Type 0) : Type 0 where
  event : String → O → Raw O
  unexpected : Raw O

-- `workqueue.RateLimitingInterface`: `get` is `none` when the queue has been shut down.
pub record Queue (O Q : Type 0) : Type 0 where
  pub add : Raw O → Q → Q
  pub get : Q → Option (Raw O × Q)
  pub done : Raw O → Q → Q
  pub forget : Raw O → Q → Q
  pub add_rate_limited : Raw O → Q → Q
  pub num_requeues : Q → Raw O → ℕ

-- What a handler of deletions gets: the object, or the tombstone of one whose last state is unknown.
pub data Deleted (O : Type 0) : Type 0 where
  object : O → Deleted O
  final_state_unknown : String → O → Deleted O

-- The handlers that `Run` gives to the informer. The key functions of the cache are parameters.
module _ {O Q : Type 0} (q : Queue O Q) where
  -- `AddFunc` and `UpdateFunc`
  unfoldable pub enqueue : (O → Result String) → O → Q → Q
  enqueue key_func obj w = elim (key_func obj) [ err e ↦ w | ok key ↦ q.add (event key obj) w ]

  unfoldable pub informer_delete_handler : (Deleted O → Result String) → Deleted O → Q → Q
  informer_delete_handler key_func obj w = elim (key_func obj) [
    | err e ↦ w
    | ok key ↦ elim obj [
      | object o ↦ q.add (event key o) w
      | final_state_unknown k o ↦ q.add (event key o) w
    ]
  ]

-- The callbacks of `Resource`.
pub record Resource (O S : Type 0) : Type 0 where
  pub upsert : String → O → S → S × Option String
  pub delete : String → O → S → S × Option String

-- `GetByKey`: an error, or the item if it exists.
abbrev pub Indexer : Type 0 → Type 0
Indexer O = String → Result (Option O)

module _ {O Q : Type 0} (q : Queue O Q) where
  -- What becomes of an event after its call.
  unfoldable pub settle : Raw O → Option String → Q → Q
  settle raw none w = q.forget raw w
  settle raw (some e) w =
      if ltb (q.num_requeues w raw) 5 then q.add_rate_limited raw w else q.forget raw w

module _ {O S : Type 0} (r : Resource O S) where
  -- The call of the callback, or the error of the index.
  unfoldable pub call : Indexer O → String → O → S → S × Option String
  call index key obj s = elim (index key) [
    | err e ↦ (s, some e)
    | ok none ↦ r.delete key obj s
    | ok (some item) ↦ r.upsert key item s
  ]

module _ {O Q S : Type 0} (q : Queue O Q) (r : Resource O S) where
  unfoldable pub process_single : Indexer O → Q × S → Bool × Q × S
  unfolding call settle
  process_single index (w, s) = elim (q.get w) [
    | none ↦ (false, w, s)
    | some (unexpected, w') ↦ (true, q.done unexpected w', s)
    | some (event key obj, w') ↦
        let (s', e) = call r index key obj s in
        (true, q.done (event key obj) (settle q (event key obj) e w'), s')
  ]

  -- The first calls of the loop of `Run`, with the index as each finds it. The loop ends when the
  -- queue has been shut down.
  unfoldable pub run : (ℕ → Indexer O) → ℕ → Q × S → Q × S
  unfolding process_single
  run index zero ws = ws
  run index (suc n) ws =
      let (more, w, s) = process_single (index zero) ws in
      let rest = run (λ k. index (suc k)) n (w, s) in if more then rest else (w, s)
