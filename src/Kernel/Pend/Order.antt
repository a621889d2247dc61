-- ===== src/Kernel/Pend/Order.antt =====
-- The order of a block list: by priority, and first come first served among equals.
use raw_os.Shared.{
  ℕ, ◌≤◌, ◌<◌, ltb, List, [], ◌∷◌, arith, All-map, IsSorted, Inserted, Inserted-here, Inserted-cons,
  Inserted-IsSorted, Bool-cases, inl, inr,
}
use raw_os.Kernel.{Task}
use raw_os.Kernel.Pend.{add_to_priority_list}

-- Into a list sorted by priority a task goes behind all tasks that are as urgent as it or more, and
-- before all others; the tasks that were there keep their order.
pub add_to_priority_list-Inserted :
    (tasks : ℕ → Task) (t val : ℕ) (l : List ℕ)
    → IsSorted (λ q. (tasks q).priority) l
    → Inserted (λ q. (tasks q).priority) val t l (add_to_priority_list tasks val t l)
unfolding add_to_priority_list
add_to_priority_list-Inserted tasks t val [] s = Inserted-here _ val t [] tt
add_to_priority_list-Inserted tasks t val (q ∷ rest) s =
    elim (Bool-cases (ltb val (tasks q).priority)) [
      | inl e ↦ rw e (
          Inserted-here _ val t (q ∷ rest) (
            ground arith,
            All-map (λ y. (tasks q).priority ≤ (tasks y).priority) (λ y. val < (tasks y).priority)
                rest (λ y le. ground arith) s.0,
          ))
      | inr e ↦ rw e (
          Inserted-cons (λ q. (tasks q).priority) val t q rest _ (ground arith)
            (add_to_priority_list-Inserted tasks t val rest s.1))
    ]

-- So a block list stays sorted, and its first task is one of the most urgent.
pub add_to_priority_list-IsSorted :
    (tasks : ℕ → Task) (t : ℕ) (l : List ℕ)
    → IsSorted (λ q. (tasks q).priority) l
    → IsSorted (λ q. (tasks q).priority) (add_to_priority_list tasks (tasks t).priority t l)
add_to_priority_list-IsSorted tasks t l s =
    Inserted-IsSorted _ t l _ (add_to_priority_list-Inserted tasks t (tasks t).priority l s) s
