-- ===== src/Ownership/State.antt =====
-- entity_manager.h, component_factory.h and component_pool.h together: what a manager has of the
-- memory, and what a client sees to.
use raccoon_ecs.ComponentPool.{component, slot_at}
use raccoon_ecs.ComponentFactory.Sound.{IsSound}
use raccoon_ecs.ComponentFactory.Creating.{Fits}
use raccoon_ecs.EntityManager.{new_manager}
use raccoon_ecs.EntityManager.Invariant.{new_manager-IsValid}
use raccoon_ecs.Delegates.{no_functions}
use raccoon_ecs.ComponentMap.{get_component_vector_by_id}
use raccoon_ecs.Common.{◌≢◌, ℕ, ◌≡◌, refl, true, some, find}
use raccoon_ecs.Outcome.{Ptr, nullptr, ok}
use raccoon_ecs.Env.{Env, Error}
use raccoon_ecs.TypeId.{TypeId}
use raccoon_ecs.ComponentMap.{component_at}
use raccoon_ecs.ComponentFactory.{Maker, ComponentFactory, Memory, factory_env, report_error}
use raccoon_ecs.ComponentFactory.Sound.{HasSpaceFor}
use raccoon_ecs.EntityManager.{EntityManager}
use raccoon_ecs.EntityManager.Entities.{exists_at}
use raccoon_ecs.EntityManager.Invariant.{IsValid}
use raccoon_ecs.EntityManager.Adding.{HasRoom}
use raccoon_ecs.EntityManager.Quiet.{IsQuiet}
use raccoon_ecs.Ownership.{
  Call, new_entity, old_entity, new_component, old_component, clear_all, later_old_component,
  later_old_entity, execute, run,
}
use raccoon_ecs.Ownership.Holding.{Holds}

module _ {K V : Type 0} (T : TypeId K) (default_component : K → V) (copy_component : V → V)
    (F : ComponentFactory K) where
  -- A manager and the memory of its factory: the components that the manager holds are those in the
  -- pools, each held once.
  pub record Owns (s : EntityManager K (Memory K V)) (m : Memory K V) : Type 0 where
    pub valid : IsValid T s
    pub quiet : IsQuiet s
    pub holds : Holds T F (component_at T.eq s.components) m

  abbrev pub env : Env K (Memory K V)
  env = factory_env T default_component copy_component F

  -- A new manager owns what is in pools that have given out nothing yet.
  pub new_manager-Owns :
      (m : Memory K V)
      → IsSound T m
      → Fits T F m
      → ((q : Ptr) (u : V) → slot_at m.heap q ≢ some (component u))
      → Owns new_manager m
  unfolding new_manager no_functions component_at get_component_vector_by_id find
  new_manager-Owns m sound fits unused = record {
    valid = new_manager-IsValid T;
    quiet = (refl, refl, refl);
    holds = record {
      sound = sound;
      fits = fits;
      loaded = λ k j a real. absurd (real refl);
      distinct = λ k j k' j' a b real e. absurd (real refl);
      no_leak = λ q u used. absurd (unused q u used);
    };
  }

  pub Holds-report_error :
      (held : K → ℕ → Ptr) (m : Memory K V) (e : Error K)
      → Holds T F held m
      → Holds T F held (report_error e m)
  unfolding report_error
  Holds-report_error held m e h = record {
    sound = record {
      frees = h.sound.frees;
      intact = h.sound.intact;
      chains = h.sound.chains;
      apart = h.sound.apart;
      in_range = h.sound.in_range;
      statics_used = h.sound.statics_used;
      none_lost = h.sound.none_lost;
    };
    fits = record {
      same_deleters = h.fits.same_deleters;
      same_cloners = h.fits.same_cloners;
      in_range = h.fits.in_range;
    };
    loaded = h.loaded;
    distinct = h.distinct;
    no_leak = h.no_leak;
  }

  -- What a client has to see to before a call: an id for a new entity, a slot for a new component,
  -- and that the entity of the new component is there and lacks one of the type.
  abbrev pub IsReady : Call K → EntityManager K (Memory K V) → Memory K V → Type 0
  IsReady new_entity s m = HasRoom s
  IsReady (old_entity e) s m = Unit
  IsReady (new_component e k) s m =
      (exists_at s e.raw_id ≡ true)
      × (component_at T.eq s.components k e.raw_id ≡ nullptr)
      × ((maker : Maker) → find T.eq k F.component_creators ≡ some maker → HasSpaceFor maker m)
  IsReady (old_component e k) s m = Unit
  IsReady clear_all s m = Unit
  IsReady (later_old_component e k) s m = Unit
  IsReady (later_old_entity e) s m = Unit
  IsReady execute s m = Unit

  -- The call returns, and the manager still owns what is in the pools.
  abbrev pub Returns : Call K → EntityManager K (Memory K V) → Memory K V → Type 0
  Returns c s m =
      (s' : EntityManager K (Memory K V)) × (m' : Memory K V) × (run T env c s m ≡ ok (s', m'))
      × Owns s' m'
