-- ===== src/Publication/Reread.antt =====
-- `#readAfterDispatch` (src/core/publication.ts): bounded rereads, and no write.
use tilda_mcp.Prelude.{ℕ, String, ◌==◌, Option, none, some, List, [], ◌∷◌, Bool, true, false, not}
use tilda_mcp.Effect.State.{Exec, pure, try_catch, if◌then◌else◌, ◌>>=◌, ◌>>◌}
use tilda_mcp.Contracts.Targets.{PageTarget}
use tilda_mcp.Contracts.Hash.{Platform}
use tilda_mcp.Contracts.Records.{PublicationAction}
use tilda_mcp.Engine.World.{World, on_outside}
use tilda_mcp.Publication.Data.{
  PublicationData, PublicationHost, changed_hash, is_published, is_desired, read_page,
}

pub data Verdict : Type 0 where
  desired unchanged ambiguous : Verdict

-- What was read last, and what it shows.
pub record Reread : Type 0 where
  pub state : Verdict
  pub value : Option PublicationData

-- `===` on Booleans.
abbrev pub iff : Bool → Bool → Bool
iff true b = b
iff false b = not b

abbrev verdict : Bool → Bool → Bool → Verdict
verdict true true same = desired
verdict wanted true true = unchanged
verdict wanted kept same = ambiguous

unfoldable pub classify :
    Platform → PublicationAction → Bool → String → Option PublicationData → Reread
classify platform action before_published before_hash none = record {
  state = ambiguous;
  value = none;
}
classify platform action before_published before_hash (some d) = record {
  state =
      verdict (is_desired action d) (changed_hash platform d.changed == before_hash)
        (iff (is_published d) before_published);
  value = some d;
}

abbrev pub is_unchanged : Verdict → Bool
is_unchanged unchanged = true
is_unchanged _ = false

module _ {E : Type 0} (host : PublicationHost E) where
  -- A failed read is an ambiguous one.
  unfoldable pub reread : PageTarget → PublicationAction → Bool → String → Exec (World E) Reread
  reread target action before_published before_hash =
      try_catch
        (do
          d ← read_page host target
          pure (classify host.platform action before_published before_hash (some d)))
        (λ e. pure (classify host.platform action before_published before_hash none))

  -- The loop over the delays goes on while the state is unchanged.
  unfoldable pub reread_after :
      PageTarget → PublicationAction → Bool → String → List ℕ → Reread → Exec (World E) Reread
  reread_after target action before_published before_hash [] seen = pure seen
  reread_after target action before_published before_hash (d ∷ ds) seen =
      if not (is_unchanged seen.state) then pure seen else (do
        on_outside (host.delay d)
        next ← reread target action before_published before_hash
        reread_after target action before_published before_hash ds next)

  unfoldable pub read_after_dispatch :
      PageTarget → PublicationAction → Bool → String → List ℕ → Exec (World E) Reread
  read_after_dispatch target action before_published before_hash delays = do
    first ← reread target action before_published before_hash
    reread_after target action before_published before_hash delays first
