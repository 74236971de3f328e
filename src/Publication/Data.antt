-- ===== src/Publication/Data.antt =====
-- What a publication reads, asks and records (src/core/publication.ts, src/adapters/session.ts).
use tilda_mcp.Prelude.{
  ℕ, ◌+◌, String, ◌<>◌, ◌==◌, Option, none, some, List, [], ◌∷◌, Bool, not, ltb, if◌then◌else◌,
}
use tilda_mcp.Effect.Codes.{Code, tilda, invalid_publication_reconciliation_budget}
use tilda_mcp.Effect.Check.{Result, err, ok}
use tilda_mcp.Effect.State.{Exec, Outcome, returned, threw, final, ◌>>◌}
use tilda_mcp.Contracts.Targets.{PageTarget}
use tilda_mcp.Contracts.Hash.{Platform}
use tilda_mcp.Contracts.Records.{
  Timestamp, PublicationAction, publish, unpublish, PublicationJournalRecord,
  PublicationJournalState,
}
use tilda_mcp.Engine.World.{World, on_outside}

pub record PublicationData : Type 0 where
  pub changed : String
  pub published : String
  pub page_url : String
  pub public_url : String

pub data Acknowledgement : Type 0 where
  acknowledged rejected unknown : Acknowledgement

pub record DispatchReceipt : Type 0 where
  pub operation_id : String
  pub request_dispatched : Bool
  pub acknowledgement : Acknowledgement

-- The sessions, which are opened and closed around an action, and the timers. What a session
-- answers is up to the outside.
pub record PublicationHost (E : Type 0) : Type 0 where
  pub platform : Platform
  pub now : E → ℕ × E
  pub enter : Exec E (Unit {0})
  pub leave : Exec E (Unit {0})
  pub read_publication : PageTarget → Exec E PublicationData
  pub publish_page : PageTarget → Exec E DispatchReceipt
  pub unpublish_page : PageTarget → Exec E DispatchReceipt
  pub delay : ℕ → Exec E (Unit {0})

pub record PublicationActionResult : Type 0 where
  pub action : PublicationAction
  pub target : PageTarget
  pub before : PublicationData
  pub after : PublicationData
  pub state_changed : Bool
  pub dry_run : Bool

unfoldable pub action_text : PublicationAction → String
action_text publish = "publish"
action_text unpublish = "unpublish"

unfoldable pub publication_intent_hash : Platform → PublicationAction → PageTarget → String
unfolding action_text
publication_intent_hash platform action target = platform.sha256_hex (
    "tilda-publication-v1\0"
    <> action_text action
    <> "\0"
    <> target.project_id
    <> "\0"
    <> target.page_id)

unfoldable pub changed_hash : Platform → String → String
changed_hash platform value = platform.sha256_hex ("tilda-publication-changed-v1\0" <> value)

unfoldable pub is_published : PublicationData → Bool
is_published d = not (d.published == "")

unfoldable pub is_desired : PublicationAction → PublicationData → Bool
unfolding is_published
is_desired publish d = is_published d
is_desired unpublish d = not (is_published d)

abbrev pub given : Option Code → Option Code → Option Code
given none old = old
given (some c) old = some c

-- `terminalPublication`, with the failure and the reconciliation where they are given.
unfoldable pub terminal_publication :
    PublicationJournalRecord
    → Timestamp
    → PublicationJournalState
    → Option Code
    → Option Code
    → PublicationJournalRecord
terminal_publication r t state failure reconciliation = record r {
  state = state;
  updated_at = t;
  failure_code = given failure r.failure_code;
  reconciliation_code = given reconciliation r.reconciliation_code;
}

abbrev pub total : List ℕ → ℕ
total [] = 0
total (d ∷ ds) = d + total ds

abbrev pub max_reconciliation_budget_ms : ℕ
max_reconciliation_budget_ms = 8000

-- The delays are natural numbers by their type.
unfoldable pub assert_reconciliation_delays : List ℕ → Result (List ℕ)
assert_reconciliation_delays delays =
    if ltb max_reconciliation_budget_ms (total delays)
    then err (tilda invalid_publication_reconciliation_budget)
    else ok delays

-- `finally`: the session is closed whatever the action did; an error of closing it is the one that
-- is thrown.
abbrev pub finished : {W A : Type 0} → Outcome W A → Outcome W (Unit {0}) → Outcome W A
finished o (threw f v) = threw f v
finished (returned a w) (returned u v) = returned a v
finished (threw e w) (returned u v) = threw e v

module _ {E : Type 0} (host : PublicationHost E) where
  unfoldable pub publication_now : Exec (World E) Timestamp
  publication_now w = let (t, e) = host.now w.outside in returned t (record w { outside = e })

  unfoldable pub and_leave : {A : Type 0} → Exec (World E) A → Exec (World E) A
  and_leave action w = let o = action w in finished o (on_outside host.leave (final o))

  unfoldable pub with_session : {A : Type 0} → Exec (World E) A → Exec (World E) A
  with_session action = do on_outside host.enter; and_leave action

  unfoldable pub read_page : PageTarget → Exec (World E) PublicationData
  read_page target = on_outside (host.read_publication target)
