-- ===== src/Cache/Linked.antt =====
-- Go's container/list: the elements from front to back, each with an identity. A pointer to an
-- element is its identity.
use go_web.Prelude.{ℕ, Option, List, ◌∷◌, maybe, get, put, delete, get_last?, ℕ_discrete}

module _ {A : Type 0} where
  abbrev pub remove : ℕ → List (ℕ × A) → List (ℕ × A)
  remove i l = delete ℕ_discrete i l

  abbrev pub push_front : ℕ → A → List (ℕ × A) → List (ℕ × A)
  push_front i a l = (i, a) ∷ l

  -- Nothing, if the element is not in the list.
  abbrev pub move_to_front : ℕ → List (ℕ × A) → List (ℕ × A)
  move_to_front i l = maybe l (λ a. (i, a) ∷ remove i l) (get ℕ_discrete i l)

  abbrev pub back : List (ℕ × A) → Option (ℕ × A)
  back l = get_last? l

  -- The value behind a pointer to an element, and a write to it.
  abbrev pub value_of : ℕ → List (ℕ × A) → Option A
  value_of i l = get ℕ_discrete i l

  abbrev pub write : ℕ → A → List (ℕ × A) → List (ℕ × A)
  write i a l = put ℕ_discrete i a l
