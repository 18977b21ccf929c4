-- ===== src/EntityManager/Rows.antt =====
-- entity_manager.h: the rows that the loops of the queries make.
use mathlib.Core.List.{append-nil}
use raccoon_ecs.Common.{
  ℕ, suc, ◌+◌, ◌%◌, ◌<◌, ◌≡◌, refl, List, [], ◌∷◌, ◌++◌, length, get_or, map, arith, ◌==◌,
  if◌then◌else◌,
}
use raccoon_ecs.Outcome.{Ptr, Outcome, ok, ◌>>=◌}
use raccoon_ecs.Entity.{entity, u32_mod}
use raccoon_ecs.EntityManager.Entities.{at}
use raccoon_ecs.EntityManager.Adding.{at-get_or}
use raccoon_ecs.EntityManager.Queries.{Row, EntityRow, rows, entity_rows, process_entity_rows}

abbrev pub row : {D : Type 0} → D → List Ptr → Row D
row d set = record { extra = d; set = set }

abbrev pub entity_row : {D : Type 0} → D → List ℕ → (ℕ → List Ptr) → ℕ → EntityRow D
entity_row d versions f x = record {
  extra = d;
  entity = entity (x % u32_mod) (get_or versions x 0);
  set = f x;
}

pub rows-map :
    {D : Type 0} (d : D) (f : ℕ → List Ptr) (ids : List ℕ)
    → rows d (map f ids) ≡ map (λ x. row d (f x)) ids
unfolding rows
rows-map d f [] = refl
rows-map d f (x ∷ ids) = rw (rows-map d f ids)

pub entity_rows-map :
    {D : Type 0} (d : D) (versions : List ℕ) (f : ℕ → List Ptr) (sets : List (List Ptr)) (i : ℕ)
    (ids : List ℕ)
    → ((j : ℕ)
        → j < length ids
        → (get_or ids j 0 < length versions) × (at sets (i + j) ≡ ok (f (get_or ids j 0))))
    → entity_rows d versions sets i ids ≡ ok (map (entity_row d versions f) ids)
unfolding entity_rows
entity_rows-map d versions f sets i [] h = refl
entity_rows-map d versions f sets i (x ∷ ids) h =
    let rest =
      entity_rows-map d versions f sets (i + 1) ids
        (λ j lt. let e : i + 1 + j ≡ i + suc j = omega arith in rw e (h (suc j) (omega arith))) in
    let (inside, placed) = h 0 (omega arith) in
    let first : at sets i ≡ ok (f x) = let e : i + 0 ≡ i = omega arith in rw e at placed in
    rw (at-get_or versions x 0 inside, first, rest)

pub skip_empty :
    {S D : Type 0} (q : S) (f : ℕ → EntityRow D) (found : Outcome (List (EntityRow D)))
    (out : List (EntityRow D)) (ids : List ℕ)
    → found ≡ ok (map f ids)
    → ◌≡◌ {A = Outcome (S × List (EntityRow D))}
        (if length ids == 0 then ok (q, out) else (found >>= λ rows. ok (q, out ++ rows)))
        (ok (q, out ++ map f ids))
skip_empty q f found out [] e = rw append-nil
skip_empty q f found out (x ∷ ids) e = rw e (ground arith)

pub skip_process :
    {S D W : Type 0} (q : S) (f : ℕ → EntityRow D) (found : Outcome (List (EntityRow D)))
    (g : EntityRow D → W → W) (w : W) (ids : List ℕ)
    → found ≡ ok (map f ids)
    → ◌≡◌ {A = Outcome (S × W)}
        (if length ids == 0
          then ok (q, w)
          else (found >>= λ rows. ok (q, process_entity_rows g rows w)))
        (ok (q, process_entity_rows g (map f ids) w))
unfolding process_entity_rows
skip_process q f found g w [] e = refl
skip_process q f found g w (x ∷ ids) e = rw e (ground arith)
