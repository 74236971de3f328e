-- ===== src/Tests/Demo.antt =====
-- A small remote editor with one record, and its adapter.
use mathlib.Core.List.{Memᴰ}
use tilda_mcp.Prelude.{
  ℕ, zero, suc, ◌+◌, ◌≤◌, String, ◌≡◌, refl, none, [], ◌∷◌, true, arith, ◌==◌, if◌then◌else◌,
}
use tilda_mcp.Effect.Check.{ok}
use tilda_mcp.Effect.State.{returned, final}
use tilda_mcp.Contracts.Targets.{ExactTarget}
use tilda_mcp.Contracts.Requests.{ChangeRequest, t123_code, full_replace}
use tilda_mcp.Contracts.Hash.{null}
use tilda_mcp.Contracts.Adapters.{AdapterState, PlannedMutation, ChangeAdapter, Host}
use tilda_mcp.Store.{empty}
use tilda_mcp.Engine.World.{World}
use tilda_mcp.Engine.Once.{Meter}

abbrev pub digest : String
digest = "0000000000000000000000000000000000000000000000000000000000000000"

-- The digests of the keys of a session, and of anything else.
abbrev pub digest_of : String → String
digest_of s =
    if s == "tilda-mcp-idempotency-v1\0apply-key"
    then "1111111111111111111111111111111111111111111111111111111111111111"
    else if s == "tilda-mcp-idempotency-v1\0rollback-key"
    then "2222222222222222222222222222222222222222222222222222222222222222"
    else digest

abbrev pub hash_a : String
hash_a = "sha256:aaaaaaaaaaaaaaaaaaaaaaaaaaaaaaaaaaaaaaaaaaaaaaaaaaaaaaaaaaaaaaaa"

abbrev pub hash_b : String
hash_b = "sha256:bbbbbbbbbbbbbbbbbbbbbbbbbbbbbbbbbbbbbbbbbbbbbbbbbbbbbbbbbbbbbbbb"

abbrev pub change_set_id : String
change_set_id = "11111111-1111-4111-8111-111111111111"

-- The content of the record, by its hash, and how often the calls went out.
pub record Remote : Type 0 where
  pub content : String
  pub write_count : ℕ
  pub clock : ℕ
  pub ids : ℕ

abbrev pub state_of : String → AdapterState
state_of h = record { hash = h; payload = null; revision = none; summary = "record" }

abbrev pub request : ChangeRequest
request =
    t123_code (record { project_id = "1"; page_id = "2"; record_id = "3" }) (full_replace "code")

abbrev pub the_plan : PlannedMutation
the_plan = record {
  adapter = "demo";
  capability = "code";
  request = request;
  expected_before_hash = hash_a;
  expected_before_revision = none;
  expected_after_hash = hash_b;
  intended_state = state_of hash_b;
  changed_paths = "code" ∷ [];
  summary = "replace";
}

abbrev write : String → Remote → Remote
write h e = record e { content = h; write_count = suc e.write_count }

abbrev pub adapter : ChangeAdapter Remote
adapter = record {
  id = "demo";
  capabilities = "code" ∷ [];
  supports = λ _. true;
  read = λ _ e. returned (state_of e.content) e;
  plan = λ before request. ok the_plan;
  apply = λ p e. returned p.intended_state (write p.intended_state.hash e);
  restore = λ _ s e. returned s (write s.hash e);
}

abbrev fresh_id : ℕ → String
fresh_id zero = change_set_id
fresh_id (suc n) = "22222222-2222-4222-8222-222222222222"

abbrev pub host : Host Remote
host = record {
  platform = record { locale_le = λ _ _. true; stringify = λ _. ""; sha256_hex = digest_of };
  adapters = adapter ∷ [];
  now = λ e. (e.clock, record e { clock = suc e.clock });
  random_uuid = λ e. (fresh_id e.ids, record e { ids = suc e.ids });
}

abbrev pub start : World Remote
start = record {
  store = empty;
  vault = [];
  outside = record { content = hash_a; write_count = 0; clock = 5; ids = 0 };
}

abbrev reading :
    (a : ChangeAdapter Remote)
    → Memᴰ a host.adapters
    → (t : ExactTarget) (e : Remote) → (final (a.read t e)).write_count ≡ e.write_count
reading a (Memᴰ.head h) t e = rw h refl
reading a (Memᴰ.tail k) t e = elim k [ ]

abbrev applying :
    (a : ChangeAdapter Remote)
    → Memᴰ a host.adapters
    → (p : PlannedMutation) (e : Remote) → (final (a.apply p e)).write_count ≤ e.write_count + 1
applying a (Memᴰ.head h) p e = rw h (omega arith)
applying a (Memᴰ.tail k) p e = elim k [ ]

abbrev restoring :
    (a : ChangeAdapter Remote)
    → Memᴰ a host.adapters
    → (t : ExactTarget) (s : AdapterState) (e : Remote)
    → (final (a.restore t s e)).write_count ≤ e.write_count + 1
restoring a (Memᴰ.head h) t s e = rw h (omega arith)
restoring a (Memᴰ.tail k) t s e = elim k [ ]

-- Every apply and every restore of the adapter is one write.
abbrev pub meter : Meter host
meter = record {
  writes = λ e. e.write_count;
  apply_cost = 1;
  restore_cost = 1;
  read_free = reading;
  apply_bounded = applying;
  restore_bounded = restoring;
  clock_free = λ e. refl;
  uuid_free = λ e. refl;
}
