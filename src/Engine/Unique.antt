-- ===== src/Engine/Unique.antt =====
-- What the registry finds by an identifier (src/adapters/registry.ts).
use mathlib.Core.Path.{subst}
use mathlib.Core.List.{Memᴰ}
use tilda_mcp.Prelude.{String, ◌==◌, ◌≡◌, true, false, List, [], ◌∷◌, any, arith}
use tilda_mcp.Effect.Codes.{duplicate_adapter}
use tilda_mcp.Effect.Check.{ok, require, >>-eq-ok, require-eq-ok}
use tilda_mcp.Contracts.Adapters.{ChangeAdapter}
use tilda_mcp.Store.Checks.{distinct}
use tilda_mcp.Engine.Registry.{ids, new_registry, by_id}

module _ {E : Type 0} where
  unlisted :
      (a : ChangeAdapter E) (as' : List (ChangeAdapter E)) (id : String)
      → Memᴰ a as'
      → any (λ y. id == y) (ids as') ≡ false
      → (id == a.id) ≡ false
  unfolding ids
  unlisted a [] id k u = elim k [ ]
  unlisted a (b ∷ bs) id (Memᴰ.head h) u = ground arith
  unlisted a (b ∷ bs) id (Memᴰ.tail k) u = unlisted a bs id k (ground arith)

  found :
      (a : ChangeAdapter E) (as' : List (ChangeAdapter E))
      → Memᴰ a as'
      → distinct (ids as') ≡ true
      → by_id as' a.id ≡ ok a
  unfolding ids distinct by_id
  found a [] k d = elim k [ ]
  found a (b ∷ bs) (Memᴰ.head h) d = ground arith
  found a (b ∷ bs) (Memᴰ.tail k) d =
      let u = unlisted a bs b.id k (ground arith) in
      let rest = found a bs k (ground arith) in ground arith

  -- The registry of adapters that the constructor accepts finds each of them by its identifier.
  pub registered-found :
      (adapters registry : List (ChangeAdapter E)) (a : ChangeAdapter E)
      → new_registry adapters ≡ ok registry
      → Memᴰ a adapters
      → by_id registry a.id ≡ ok a
  unfolding new_registry
  registered-found adapters registry a h k =
      let (d, same) = >>-eq-ok (require (distinct (ids adapters)) duplicate_adapter) _ h in
      let e : adapters ≡ registry = cc in
      subst (λ as'. by_id as' a.id ≡ ok a) e (found a adapters k (require-eq-ok _ _ d))
