-- ===== src/Tests/Publication.antt =====
-- A page that is published and unpublished, and the theorems on the controller at that page.
use tilda_mcp.Prelude.{
  ℕ, suc, ◌+◌, ◌*◌, ◌≤◌, String, ◌≡◌, refl, Option, none, some, List, [], ◌∷◌, true, false, arith,
  length,
}
use tilda_mcp.Prelude
use tilda_mcp.Store
use tilda_mcp.Contracts.Targets
use tilda_mcp.Contracts.Targets.{PageTarget}
use tilda_mcp.Contracts.Records
use tilda_mcp.Contracts.Records.{PublicationAction, publish, unpublish, PublicationJournalRecord}
use tilda_mcp.Effect.State
use tilda_mcp.Effect.State.{Outcome, returned, threw, final}
use tilda_mcp.Effect.Codes.{tilda, idempotency_conflict}
use tilda_mcp.Dict
use tilda_mcp.Dict.{lookup}
use tilda_mcp.Store.Checks
use tilda_mcp.Store.Transition
use tilda_mcp.Store.Read
use tilda_mcp.Store.Journal
use tilda_mcp.Store.Attempts
use tilda_mcp.Store.Published.{has_journal}
use tilda_mcp.Engine.World
use tilda_mcp.Engine.World.{World}
use tilda_mcp.Publication.Data
use tilda_mcp.Publication.Data.{
  PublicationData, DispatchReceipt, acknowledged, PublicationHost, PublicationActionResult,
  is_desired, assert_reconciliation_delays,
}
use tilda_mcp.Publication.Reread
use tilda_mcp.Publication.Replay
use tilda_mcp.Publication.Execute
use tilda_mcp.Publication.Execute.{execute}
use tilda_mcp.Publication.Session
use tilda_mcp.Publication.Session.{Request, executed}
use tilda_mcp.Publication.Stable.{Meter}
use tilda_mcp.Publication.Once.{DispatchMeter, executed-paid}
use tilda_mcp.Publication.Waiting.{WaitMeter, executed-waits}
use tilda_mcp.Publication.Final.{executed-Settled, later_execute-frozen}
use tilda_mcp.Publication.Result.{execute-Reached}
use tilda_mcp.Tests.Demo

pub record Page : Type 0 where
  pub published : String
  pub sent : ℕ
  pub waited : ℕ
  pub clock : ℕ

abbrev data_of : Page → PublicationData
data_of p = record { changed = "1"; published = p.published; page_url = ""; public_url = "" }

abbrev receipt : DispatchReceipt
receipt = record { operation_id = "1"; request_dispatched = true; acknowledgement = acknowledged }

abbrev host : PublicationHost Page
host = record {
  platform = Demo.host.platform;
  now = λ e. (e.clock, record e { clock = suc e.clock });
  enter = λ e. returned tt e;
  leave = λ e. returned tt e;
  read_publication = λ t e. returned (data_of e) e;
  publish_page = λ t e. returned receipt (record e { published = "2"; sent = suc e.sent });
  unpublish_page = λ t e. returned receipt (record e { published = ""; sent = suc e.sent });
  delay = λ ms e. returned tt (record e { waited = e.waited + ms });
}

abbrev start : World Page
start = record {
  store = Store.empty;
  vault = [];
  outside = record { published = ""; sent = 0; waited = 0; clock = 7 };
}

abbrev page : PageTarget
page = record { project_id = "1"; page_id = "2" }

abbrev delays : List ℕ
delays = 250 ∷ 500 ∷ 1000 ∷ 2000 ∷ 1500 ∷ []

abbrev once : List Request
once = record { action = publish; target = page; dry_run = false; key = some "publish-key" } ∷ []

-- The same call again, and a dry run.
abbrev more : List Request
more =
    record { action = publish; target = page; dry_run = false; key = some "publish-key" }
    ∷ record { action = unpublish; target = page; dry_run = true; key = none }
    ∷ []

-- Everything that `execute` calls.
unfoldable publish_all : Unit {0}
unfolding State.pure State.throw State.attempt State.gets State.try_catch State.◌>>=◌
    State.if◌then◌else◌ State.modify Dict.lookup Dict.insert Transition.immutable_publication_fields
    Transition.same_publication Checks.assert_publication Read.last Read.idempotency_digest
    Read.load_publication_history Journal.reads Attempts.claimed_record Attempts.load_publication
    Attempts.load_publication_by_digest Attempts.open_publication Attempts.claim_publication_action
    Attempts.append_publication_action World.on_store World.on_outside World.locked_run
    World.with_mutation_lock Data.action_text Data.publication_intent_hash Data.changed_hash
    Data.is_published Data.is_desired Data.terminal_publication Data.publication_now Data.and_leave
    Data.with_session Data.read_page Reread.classify Reread.reread Reread.reread_after
    Reread.read_after_dispatch Replay.was_already_desired Replay.unchanged_result
    Replay.append_terminal Replay.replay_terminal Replay.replay_claimed Replay.reconcile_replay
    Execute.receipt_dispatch Execute.send Execute.dispatch Execute.settle_publication
    Execute.publish_first Execute.publish_claimed Execute.intent_of Execute.execute_locked
    Execute.execute Session.executed Prelude.utf16_length Prelude.is_trimmed Prelude.is_hex_hash
    Prelude.String-discrete Prelude.is_canonical_id Prelude.ℕ_discrete Targets.PageTarget-discrete
    Records.PublicationAction-discrete Records.ImmutablePublicationFields-discrete
publish_all = tt

abbrev published_world : World Page
published_world = executed host delays once start

abbrev published_run : Outcome (World Page) PublicationActionResult
published_run = execute host delays publish page false (some "publish-key") start

-- One call publishes the page, and the second finds the journal.
runs_once :
    (published_world.outside.sent ≡ 1)
    × ((executed host delays more published_world).outside.sent ≡ 1)
    × (length published_world.store.publications ≡ 1)
unfolding publish_all
runs_once = (refl, refl, refl)

-- A key that is bound to another action is a conflict, and nothing is sent.
other_action :
    execute host delays unpublish page false (some "publish-key") published_world
    ≡ threw
        (tilda idempotency_conflict)
        (final (execute host delays unpublish page false (some "publish-key") published_world))
unfolding publish_all
other_action = refl

abbrev counting : Meter host
counting = record {
  count = λ e. e.sent;
  enter_free = λ e. refl;
  leave_free = λ e. refl;
  read_free = λ t e. refl;
  clock_free = λ e. refl;
}

abbrev dispatch_meter : DispatchMeter host
dispatch_meter = record {
  meter = counting;
  delay_free = λ ms e. refl;
  publish_once = λ t e. omega arith;
  unpublish_once = λ t e. omega arith;
}

abbrev wait_meter : WaitMeter host
wait_meter = record {
  meter = record {
    count = λ e. e.waited;
    enter_free = λ e. refl;
    leave_free = λ e. refl;
    read_free = λ t e. refl;
    clock_free = λ e. refl;
  };
  delay_bounded = λ ms e. omega arith;
  publish_free = λ t e. refl;
  unpublish_free = λ t e. refl;
}

executed-paid_example :
    (executed host delays more published_world).outside.sent
      + length published_world.store.publications
    ≤ published_world.outside.sent
      + length (executed host delays more published_world).store.publications
executed-paid_example = executed-paid dispatch_meter delays more published_world

executed-waits_example :
    (executed host delays more start).outside.waited + 8000 * length start.store.publications
    ≤ start.outside.waited + 8000 * length (executed host delays more start).store.publications
unfolding assert_reconciliation_delays
executed-waits_example = executed-waits wait_meter delays delays more start refl

later_execute_example :
    (final (
      execute host delays unpublish page false
        (some "publish-key")
        (executed host delays more published_world))).outside.sent
    ≡ (executed host delays more published_world).outside.sent
unfolding publish_all
later_execute_example =
    later_execute-frozen dispatch_meter delays more published_world "publish-key" Demo.digest delays
      unpublish page false refl refl

executed-Settled_example :
    ((d : String)
      → has_journal d published_world.store ≡ true
      → has_journal d (executed host delays more published_world).store ≡ true)
    × ((d : String) (x y : PublicationJournalRecord)
        → lookup d published_world.store.publications ≡ some (x ∷ y ∷ [])
        → lookup d (executed host delays more published_world).store.publications
          ≡ some (x ∷ y ∷ []))
executed-Settled_example = executed-Settled dispatch_meter delays more published_world

abbrev value_of : Outcome (World Page) PublicationActionResult → PublicationActionResult
value_of (returned r w) = r
value_of (threw e w) = record {
  action = publish;
  target = page;
  before = data_of start.outside;
  after = data_of start.outside;
  state_changed = false;
  dry_run = true;
}

execute-Reached_example :
    ((value_of published_run).action ≡ publish)
    × ((value_of published_run).target ≡ page)
    × (is_desired publish (value_of published_run).after ≡ true)
    × ((value_of published_run).dry_run ≡ false)
unfolding publish_all
execute-Reached_example =
    execute-Reached host delays publish page (some "publish-key") start (final published_run)
      (value_of published_run) refl
