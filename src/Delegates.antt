-- ===== src/Delegates.antt =====
-- delegates.h. A callback is a function on the state `W` of its surroundings.
pub mod Handles
use raccoon_ecs.Common.{
  ℕ, ◌+◌, Bool, true, false, List, [], ◌∷◌, ◌++◌, Option, none, some, ◌==◌, leb, if◌then◌else◌, not,
}
use raccoon_ecs.Outcome.{Outcome, ok, fault, bad_function_call, int_overflow}

-- `std::function<void(Args...)>`, with `none` for an empty one.
abbrev pub Function : Type 0 → Type 0 → Type 0
Function A W = Option (A → W → W)

pub record SinglecastDelegate (A W : Type 0) : Type 0 where
  pub function : Function A W

-- `Delegates::Handle`: `no_handle` is the default, with the index -1.
pub data Handle : Type 0 where
  no_handle : Handle
  handle : ℕ → Handle

-- `Handle::operator==`
unfoldable pub eq_handle : Handle → Handle → Bool
eq_handle no_handle no_handle = true
eq_handle no_handle (handle n) = false
eq_handle (handle m) no_handle = false
eq_handle (handle m) (handle n) = m == n

pub record FunctionData (A W : Type 0) : Type 0 where
  pub id : Handle
  pub fn : A → W → W

pub record MulticastDelegate (A W : Type 0) : Type 0 where
  pub functions : List (FunctionData A W)
  pub next_function_id : ℕ

module _ {A W : Type 0} where
  -- `SinglecastDelegate()`, and what the copy constructor gives.
  unfoldable pub no_function : SinglecastDelegate A W
  no_function = record { function = none }

  -- `SinglecastDelegate::assign`
  unfoldable pub assign : SinglecastDelegate A W → Function A W → SinglecastDelegate A W
  assign d f = record d { function = f }

  -- `SinglecastDelegate::clear`
  unfoldable pub clear_function : SinglecastDelegate A W → SinglecastDelegate A W
  clear_function d = record d { function = none }

  -- `callSafe`
  unfoldable pub call_safe : SinglecastDelegate A W → A → W → W
  call_safe d a w = elim d.function [ none ↦ w | some f ↦ f a w ]

  -- `callUnsafe`: an empty function throws.
  unfoldable pub call_unsafe : SinglecastDelegate A W → A → W → Outcome W
  call_unsafe d a w = elim d.function [ none ↦ fault bad_function_call | some f ↦ ok (f a w) ]

  -- `MulticastDelegate()`, and what the copy constructor and the copy assignment leave.
  unfoldable pub no_functions : MulticastDelegate A W
  no_functions = record { functions = []; next_function_id = 0 }

  -- `operator=(MulticastDelegate&&)`: the target, and what stays behind in the source.
  unfoldable pub move_from : MulticastDelegate A W → MulticastDelegate A W × MulticastDelegate A W
  move_from other = (other, record other { functions = [] })

  -- `bind`: an empty function is not bound. The flag says whether the assertion on the number of
  -- bindings held. `mNextFunctionId` is an `int`: it overflows after its greatest value.
  unfoldable pub bind :
      MulticastDelegate A W → Function A W → Outcome (MulticastDelegate A W × Handle × Bool)
  bind d none = ok (d, no_handle, true)
  bind d (some f) =
      let new_handle = handle d.next_function_id in
      if leb 2147483647 d.next_function_id
      then fault int_overflow
      else ok (
        record {
          functions = d.functions ++ record { id = new_handle; fn = f } ∷ [];
          next_function_id = d.next_function_id + 1;
        },
        new_handle,
        leb d.next_function_id 10000,
      )

  -- `std::remove_if` in `unbind`.
  unfoldable pub remove_handle : Handle → List (FunctionData A W) → List (FunctionData A W)
  unfolding eq_handle
  remove_handle h [] = []
  remove_handle h (d ∷ ds) = if eq_handle d.id h then remove_handle h ds else d ∷ remove_handle h ds

  -- `unbind`
  unfoldable pub unbind : MulticastDelegate A W → Handle → MulticastDelegate A W
  unfolding remove_handle
  unbind d h = record d { functions = remove_handle h d.functions }

  -- The loop of `broadcast`.
  unfoldable pub call_each : List (FunctionData A W) → A → W → W
  call_each [] a w = w
  call_each (d ∷ ds) a w = call_each ds a (d.fn a w)

  -- `broadcast`
  unfoldable pub broadcast : MulticastDelegate A W → A → W → W
  unfolding call_each
  broadcast d a w = call_each d.functions a w

  -- `MulticastDelegate::clear`
  unfoldable pub clear : MulticastDelegate A W → MulticastDelegate A W
  clear d = record d { functions = [] }
