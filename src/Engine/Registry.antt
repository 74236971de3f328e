-- ===== src/Engine/Registry.antt =====
-- `StaticAdapterRegistry` (src/adapters/registry.ts).
use tilda_mcp.Prelude.{String, ◌==◌, List, [], ◌∷◌, if◌then◌else◌}
use tilda_mcp.Effect.Codes.{tilda, capability_unavailable, adapter_unavailable, duplicate_adapter}
use tilda_mcp.Effect.Check.{Result, ok, err, require, ◌>>◌}
use tilda_mcp.Store.Checks.{distinct}
use tilda_mcp.Contracts.Requests.{ChangeRequest}
use tilda_mcp.Contracts.Adapters.{ChangeAdapter}

module _ {E : Type 0} where
  unfoldable pub supporting : ChangeRequest → List (ChangeAdapter E) → List (ChangeAdapter E)
  supporting r [] = []
  supporting r (a ∷ as') = if a.supports r then a ∷ supporting r as' else supporting r as'

  unfoldable pub exactly_one : List (ChangeAdapter E) → Result (ChangeAdapter E)
  exactly_one (a ∷ []) = ok a
  exactly_one _ = err (tilda capability_unavailable)

  unfoldable pub for_request : List (ChangeAdapter E) → ChangeRequest → Result (ChangeAdapter E)
  unfolding supporting exactly_one
  for_request adapters r = exactly_one (supporting r adapters)

  unfoldable pub by_id : List (ChangeAdapter E) → String → Result (ChangeAdapter E)
  by_id [] id = err (tilda adapter_unavailable)
  by_id (a ∷ as') id = if a.id == id then ok a else by_id as' id

  unfoldable pub ids : List (ChangeAdapter E) → List String
  ids [] = []
  ids (a ∷ as') = a.id ∷ ids as'

  -- The constructor.
  unfoldable pub new_registry : List (ChangeAdapter E) → Result (List (ChangeAdapter E))
  new_registry adapters = do require (distinct (ids adapters)) duplicate_adapter; ok adapters

  unfoldable pub list_capabilities : List (ChangeAdapter E) → List (String × List String)
  list_capabilities [] = []
  list_capabilities (a ∷ as') = (a.id, a.capabilities) ∷ list_capabilities as'
