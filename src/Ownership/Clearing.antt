-- ===== src/Ownership/Clearing.antt =====
-- entity_manager.h, component_factory.h and component_pool.h together: a client's `clear`.
use raccoon_ecs.Common.{
  length, none, ℕ, zero, suc, ◌≡◌, refl, some, List, [], ◌∷◌, arith, ap, ◌∙◌, find, get_or, ite,
  Distinct, ◌==◌, if◌then◌else◌,
}
use raccoon_ecs.Outcome.{fault, bad_function_call, Ptr, nullptr, ok}
use raccoon_ecs.Env.{Env}
use raccoon_ecs.TypeId.{TypeId}
use raccoon_ecs.ComponentMap.{ComponentMap, component_at}
use raccoon_ecs.ComponentFactory.{
  Maker, ComponentFactory, Memory, delete, get_deletion_fn, factory_env,
}
use raccoon_ecs.EntityManager.{EntityManager}
use raccoon_ecs.EntityManager.Storage.{delete_each, delete_all}
use raccoon_ecs.EntityManager.Clearing.{cleared, cleared-IsValid, clear-deleted}
use raccoon_ecs.Ownership.{run, clear_all}
use raccoon_ecs.Ownership.Holding.{Replaces, Holds, Holds-same}
use raccoon_ecs.Ownership.Vectors.{KnowsAll, delete-Holds, component_at-cons, component_at_absent}
use raccoon_ecs.Ownership.State.{env, Owns, Returns}

-- A vector whose first places are empty, and that holds these pointers from there on.
unfoldable from : ℕ → List Ptr → ℕ → Ptr
from zero ps x = get_or ps x nullptr
from (suc n) ps zero = nullptr
from (suc n) ps (suc x) = from n ps x

from_here : (n : ℕ) (p : Ptr) (ps : List Ptr) → from n (p ∷ ps) n ≡ p
unfolding from
from_here zero p ps = refl
from_here (suc n) p ps = from_here n p ps

from_next :
    (n : ℕ) (p : Ptr) (ps : List Ptr) (x : ℕ)
    → from (suc n) ps x ≡ (if n == x then nullptr else from n (p ∷ ps) x)
unfolding from
from_next zero p ps zero = refl
from_next zero p ps (suc x) = ground arith
from_next (suc n) p ps zero = ground arith
from_next (suc n) p ps (suc x) = ground (arith, from_next n p ps x)

from_none : (n x : ℕ) → from n [] x ≡ nullptr
unfolding from
from_none zero x = refl
from_none (suc n) zero = refl
from_none (suc n) (suc x) = from_none n x

module _ {K : Type 0} (T : TypeId K) where
  -- What is held while `clear` is in the vector of a type.
  abbrev in_vector : K → ℕ → List Ptr → ComponentMap K → K → ℕ → Ptr
  in_vector k n ps rest j x = ite (T.eq k j) (from n ps x) (component_at T.eq rest j x)

  in_vector-Replaces :
      (k : K) (n : ℕ) (p : Ptr) (ps : List Ptr) (rest : ComponentMap K)
      → Replaces T k n nullptr (in_vector k n (p ∷ ps) rest) (in_vector k (suc n) ps rest)
  in_vector-Replaces k n p ps rest j x = ground (arith, from_next n p ps x)

module _ {K V : Type 0} (T : TypeId K) (F : ComponentFactory K) where
  delete_each-Holds :
      (k : K) (maker : Maker) (rest : ComponentMap K)
      → find T.eq k F.component_creators ≡ some maker
      → (n : ℕ) (ps : List Ptr) (m : Memory K V) → Holds T F (in_vector T k n ps rest) m
      → Holds T F (in_vector T k n [] rest) (delete_each (delete maker) ps m)
  unfolding delete_each
  delete_each-Holds k maker rest known n [] m h = h
  delete_each-Holds k maker rest known n (p ∷ ps) m h =
      let here : in_vector T k n (p ∷ ps) rest k n ≡ p = ground (arith, from_here n p ps) in
      let h' =
        delete-Holds T F (in_vector T k n (p ∷ ps) rest) (in_vector T k (suc n) ps rest) m k n h
          (in_vector-Replaces T k n p ps rest) maker known in
      let after =
        delete_each-Holds k maker rest known (suc n) ps (delete maker p m) (rw here at h') in
      Holds-same T F (in_vector T k (suc n) [] rest) (in_vector T k n [] rest) _ after
        (λ j x a. ground (arith, from_none n x, from_none (suc n) x))

delete_all-found :
    {K W : Type 0} (E : Env K W) (k : K) (ps : List Ptr) (m : ComponentMap K) (w w' : W)
    (f : Ptr → W → W)
    → E.get_deletion_fn k w ≡ (some f, w')
    → delete_all E ((k, ps) ∷ m) w ≡ delete_all E m (delete_each f ps w')
unfolding delete_all
delete_all-found E k ps m w w' f found =
    ap
      (λ r. elim r.0 [
        | none ↦ if length ps == 0 then delete_all E m r.1 else fault bad_function_call
        | some g ↦ delete_all E m (delete_each g ps r.1)
      ])
      found

module _ {K V : Type 0} (T : TypeId K) (default_component : K → V) (copy_component : V → V)
    (F : ComponentFactory K) where
  delete_all-Holds :
      (m : ComponentMap K) (u : Memory K V)
      → KnowsAll T F
      → Distinct T.eq m
      → Holds T F (component_at T.eq m) u
      → (u' : Memory K V) × (delete_all (env T default_component copy_component F) m u ≡ ok u')
        × Holds T F (component_at T.eq []) u'
  unfolding delete_all
  delete_all-Holds [] u knows once h = (u, refl, h)
  delete_all-Holds ((k, ps) ∷ rest) u knows (absent, once) h =
      let (maker, known) = knows k in
      let same : find T.eq k F.component_deleters ≡ some maker =
        ap (find T.eq k) h.fits.same_deleters ∙ known in
      let found : (env T default_component copy_component F).get_deletion_fn k u
          ≡ (some (delete maker), u) =
        unfold factory_env get_deletion_fn in ground (arith, same) in
      let before : Holds T F (in_vector T k 0 ps rest) u =
        Holds-same T F (component_at T.eq ((k, ps) ∷ rest)) (in_vector T k 0 ps rest) u h (λ j x a.
          unfold from in
          ground (arith, component_at-cons T default_component copy_component F k ps rest j x)) in
      let after = delete_each-Holds T F k maker rest known 0 ps u before in
      let left : Holds T F (component_at T.eq rest) (delete_each (delete maker) ps u) =
        Holds-same T F (in_vector T k 0 [] rest) (component_at T.eq rest) _ after (λ j x a. ground (
          arith,
          from_none 0 x,
          component_at_absent T default_component copy_component F k rest x absent,
        )) in
      let (u', done, h') =
        delete_all-Holds rest (delete_each (delete maker) ps u) knows once left in
      (
        u',
        delete_all-found (env T default_component copy_component F) k ps rest u u (delete maker)
              found
            ∙ done,
        h',
      )

  module _ (knows : KnowsAll T F) (s : EntityManager K (Memory K V)) (m : Memory K V)
      (o : Owns T default_component copy_component F s m) where
    pub clear_all-Owns :
        (m' : Memory K V) × (run T (env T default_component copy_component F) clear_all s m
          ≡ ok (cleared T (env T default_component copy_component F) s, m'))
        × Owns T default_component copy_component F
            (cleared T (env T default_component copy_component F) s)
            m'
    unfolding run
    clear_all-Owns =
        let E = env T default_component copy_component F in
        let (m', deleted, h) = delete_all-Holds s.components m knows o.valid.distinct o.holds in
        (
          m',
          clear-deleted T E s m m' deleted,
          record { valid = cleared-IsValid T E s; quiet = (o.quiet.0, o.quiet.1, refl); holds = h },
        )

    pub clear_all-Returns : Returns T default_component copy_component F clear_all s m
    clear_all-Returns =
        let (m', done, o') = clear_all-Owns in
        (cleared T (env T default_component copy_component F) s, m', done, o')
