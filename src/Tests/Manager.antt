-- ===== src/Tests/Manager.antt =====
-- Runs of the manager, and its theorems at them.
use tilda_mcp.Prelude.{
  ℕ, suc, ◌<◌, ◌≡◌, ◌≢◌, refl, Option, none, some, List, [], ◌∷◌, Bool, true, false, arith,
}
use tilda_mcp.Prelude
use tilda_mcp.Effect.Codes.{tilda, task_authority_revoked, task_authority_execution_in_progress}
use tilda_mcp.Effect.State
use tilda_mcp.Effect.State.{Outcome, returned, threw, final}
use tilda_mcp.Contracts.Requests.{t123_code_replace}
use tilda_mcp.Contracts.Targets.{page_target, of_page}
use tilda_mcp.Authority.Grant.{copy_test}
use tilda_mcp.Authority.Guard
use tilda_mcp.Authority.Guard.{assert_active}
use tilda_mcp.Manager.Input
use tilda_mcp.Manager.State as Objects
use tilda_mcp.Manager.State.{MintTaskAuthorityInput, Manager, ManagedGuard, Process, AuthorityHost}
use tilda_mcp.Manager.Guarded
use tilda_mcp.Manager.Guarded.{checked}
use tilda_mcp.Manager.Leases
use tilda_mcp.Manager.Lifetime
use tilda_mcp.Manager.Session
use tilda_mcp.Manager.Session.{
  Call, mint, replace, clear, current_guard, begin_execution, release_execution, after,
}
use tilda_mcp.Manager.Pinned.{Holds, execution}
use tilda_mcp.Manager.Uninterrupted.{after-Holds}
use tilda_mcp.Manager.Retired.{Retires, ask, read, retired_for_good}
use tilda_mcp.Tests.Demo
use tilda_mcp.Tests.Authority.{authority_all, binding, page, guard, grant}

-- The outside is a clock.
abbrev host : AuthorityHost ℕ
host = record {
  platform = Demo.host.platform;
  iso = λ t. "";
  trim = λ s. s;
  now = λ e. (some e, suc e);
  create_task_id = λ e. (grant.task_id, e);
}

abbrev initial : Process ℕ
initial = record {
  manager = record {
    active = none;
    revocation_token = 0;
    reference_mutation_lease = none;
    mutation_dispatch_lease = none;
    task_execution_lease = none;
    next_object = 1;
    eligible_receipts = [];
  };
  outside = 10;
}

abbrev input : MintTaskAuthorityInput
input = record {
  task_description = "change the page";
  mode = copy_test;
  observe_targets = page_target "1" "2" ∷ [];
  write_targets = of_page page ∷ [];
  allowed_operations = t123_code_replace ∷ [];
  publication = none;
  binding = binding;
  inventory = none;
  ttl_ms = some 500;
}

-- A guard of the first token that the manager gives out.
abbrev pub first_guard : ManagedGuard
first_guard = record { guard = guard; token = 1 }

-- Everything that these calls call.
unfoldable pub manager_all : Unit {0}
unfolding authority_all State.pure State.throw State.attempt State.try_catch State.◌>>=◌
    State.if◌then◌else◌ Guard.new_guard Guard.receipt Input.assert_task_description
    Input.bounded_ttl Input.instruction_hash Input.trusted_inventory Prelude.is_blank
    Prelude.utf8_length Objects.looks Objects.update Objects.fresh_object Objects.read_clock
    Objects.now_ms Objects.new_task_id Guarded.moment Guarded.checked Guarded.receipt_of
    Guarded.guard_active Guarded.release_execution Guarded.assert_no_mutation_dispatch
    Guarded.take_execution Guarded.begin_task_execution Leases.assert_no_authority_transition
    Leases.drop_authority Leases.drop_if_expired Leases.current_of Leases.current Leases.clear
    Lifetime.activate_grant Lifetime.new_grant Lifetime.build Lifetime.install Lifetime.mint
    Lifetime.replace Session.after_call Session.after
manager_all = tt

abbrev minted : Process ℕ
minted = after host (mint input ∷ []) initial

abbrev cleared : Process ℕ
cleared = after host (mint input ∷ clear ∷ []) initial

abbrev executing : Process ℕ
executing = after host (mint input ∷ begin_execution first_guard ∷ []) initial

-- The minted authority has the first token, and clearing it gives the second; an execution lease
-- refuses to clear, and the end of the lease lets it.
runs_leases :
    (minted.manager.revocation_token ≡ 1)
    × (cleared.manager.active ≡ none)
    × (cleared.manager.revocation_token ≡ 2)
    × (executing.manager.task_execution_lease ≡ some 2)
    × (Leases.clear host executing ≡ threw (tilda task_authority_execution_in_progress) executing)
    × ((after host (release_execution 2 ∷ clear ∷ []) executing).manager.active ≡ none)
unfolding manager_all
runs_leases = (refl, refl, refl, refl, refl, refl)

after-Holds_example :
    Holds execution 2 executing.manager.active executing.manager.revocation_token
      (after host (replace input ∷ clear ∷ current_guard ∷ []) executing).manager
unfolding manager_all
after-Holds_example =
    after-Holds host execution 2 (replace input ∷ clear ∷ current_guard ∷ []) executing refl
      (tt, (tt, (tt, tt)))

retired_for_good_example :
    ask host
      (read (of_page page))
      first_guard
      (after host (mint input ∷ current_guard ∷ []) cleared)
    ≡ threw (tilda task_authority_revoked) (after host (mint input ∷ current_guard ∷ []) cleared)
unfolding manager_all
retired_for_good_example =
    retired_for_good host first_guard minted cleared (mint input ∷ current_guard ∷ [])
      (read (of_page page)) (omega arith) (Retires.cleared refl)
