-- ===== src/Scoped/Freed.antt =====
-- Every action of the two controllers that is carried out gives its lease back
-- (src/core/task-authority.ts).
use mathlib.Core.Path.{subst}
use tilda_mcp.Prelude.{ℕ, String, ◌≡◌, sym, Option, List, false}
use tilda_mcp.Effect.Check.{Result, ok, err}
use tilda_mcp.Effect.State.{Outcome, returned, threw, Exec, final, pure, attempt, ◌>>=◌, ◌>>◌}
use tilda_mcp.Effect.Keeps.{Keeps, Keeps-pure, Keeps-bind, Keeps-bind-both}
use tilda_mcp.Effect.Post.{bind-post}
use tilda_mcp.Contracts.Adapters.{Host}
use tilda_mcp.Contracts.Targets.{PageTarget}
use tilda_mcp.Contracts.Records.{PublicationAction}
use tilda_mcp.Store.{Store}
use tilda_mcp.Store.Journal.{reads}
use tilda_mcp.Store.Read.{load_change_set}
use tilda_mcp.Manager.State.{ManagedGuard, Process, AuthorityHost, is_object}
use tilda_mcp.Manager.Guarded.{begin_task_execution}
use tilda_mcp.Manager.Same.{receipt_of-Same}
use tilda_mcp.Engine.World.{World, with_store, with_outside, on_store, on_outside}
use tilda_mcp.Publication.Data.{PublicationHost}
use tilda_mcp.Scoped.Calls
use tilda_mcp.Scoped.Calls.{try_finally, receipt, release, begin_execution, under_execution}
use tilda_mcp.Scoped.Engine.{own_record, apply_own, apply, rollback_own, rollback}
use tilda_mcp.Scoped.Publication.{execute}
use tilda_mcp.Scoped.Untouched.{
  Untouched, Untouched-preorder, on_outside-Untouched, asserts-Untouched, own-Untouched,
}
use tilda_mcp.Scoped.Released.{IsFree, Begun, release-returns, begin-Begun}

-- The number of the next object, which is that of the lease that an action takes.
abbrev pub next_lease : {E : Type 0} → World (Process E) → ℕ
next_lease w = w.outside.manager.next_object

-- If the next lease is not already held, it is not held after.
abbrev Frees : {E : Type 0} → World (Process E) → World (Process E) → Type 0
Frees w v = IsFree (next_lease w) w.outside → IsFree (next_lease w) v.outside

alone : {E : Type 0} (u v : World (Process E)) → Untouched u v → Frees u v
alone u v h free =
    subst (λ m. is_object m.task_execution_lease (next_lease u) ≡ false) (sym h.same_manager) free

both : {E : Type 0} (u v w : World (Process E)) → Untouched u v → Frees v w → Frees u w
both u v w h k =
    subst
      (λ m.
        is_object m.task_execution_lease m.next_object ≡ false
        → is_object w.outside.manager.task_execution_lease m.next_object ≡ false)
      h.same_manager k

module _ {E : Type 0} where
  reads_step :
      {A : Type 0} (r : Result A) (w : World (Process E))
      → Untouched w (final (with_store w (attempt r w.store)))
  unfolding attempt
  reads_step (ok a) w = Untouched-preorder.reflexive w
  reads_step (err e) w = Untouched-preorder.reflexive w

  reads-Untouched :
      {A : Type 0} (f : Store → Result A) → Keeps (Untouched {E = E}) (on_store (reads f))
  unfolding on_store reads
  reads-Untouched f = record { at = λ w. reads_step (f w.store) w }

module _ {E : Type 0} (authority : AuthorityHost E) (g : ManagedGuard) where
  abbrev Given : ℕ → Outcome (World (Process E)) ℕ → Type 0
  Given k (returned lease v) = lease ≡ k
  Given k (threw e v) = IsFree k v.outside

  abbrev Ended : {A : Type 0} → ℕ → Outcome (World (Process E)) A → Type 0
  Ended k o = IsFree k (final o).outside

  outside-Given :
      (k : ℕ) (w : World (Process E)) (o : Outcome (Process E) ℕ)
      → Begun k o
      → Given k (with_outside w o)
  outside-Given k w (returned lease v) h = h
  outside-Given k w (threw e v) h = h

  begin-Given :
      (w : World (Process E))
      → IsFree (next_lease w) w.outside
      → Given (next_lease w) (begin_execution authority g w)
  unfolding begin_execution on_outside
  begin-Given w free =
      outside-Given (next_lease w) w (begin_task_execution authority g w.outside)
        (begin-Begun authority g w.outside free)

  release-Ended : (k : ℕ) (w : World (Process E)) → Ended k (release authority g k w)
  unfolding release on_outside
  release-Ended k w =
      let (v, h, free) = release-returns authority k w.outside in
      subst (λ (o : Outcome (Process E) (Unit {0})). Ended k (with_outside w o)) (sym h) free

  attempt-Ended :
      {A : Type 0} (k : ℕ) (r : Result A) (v : World (Process E))
      → IsFree k v.outside
      → Ended k (attempt r v)
  unfolding attempt
  attempt-Ended k (ok a) v p = p
  attempt-Ended k (err e) v p = p

  released_then :
      {A : Type 0} (k : ℕ) (w : World (Process E)) (r : Result A)
      → Ended k ((release authority g k >> attempt r) w)
  released_then k w r =
      bind-post (Ended k) (Ended k) (λ _. attempt r) (λ u v p. attempt-Ended k r v p) (λ e v p. p)
        (release authority g k) w (release-Ended k w)

  finally_step :
      {A : Type 0} (k : ℕ) (o : Outcome (World (Process E)) A)
      → Ended k (elim o [
        | returned a v ↦ (release authority g k >>= λ _. pure a) v
        | threw e v ↦ (release authority g k >>= λ _. attempt {A = A} (err e)) v
      ])
  unfolding pure attempt
  finally_step k (returned a v) = released_then k v (ok a)
  finally_step k (threw e v) = released_then k v (err e)

  finally-Ended :
      {A : Type 0} (k lease : ℕ) (m : Exec (World (Process E)) A) (w : World (Process E))
      → lease ≡ k
      → Ended k (try_finally m (release authority g lease) w)
  unfolding try_finally
  finally-Ended k lease m w same =
      subst (λ k. Ended k (try_finally m (release authority g lease) w)) same
        (finally_step lease (m w))

  receipt-Untouched : Keeps Untouched (receipt authority g)
  unfolding receipt
  receipt-Untouched = on_outside-Untouched (receipt_of-Same authority g)

  leased-Frees :
      {A : Type 0} (m : Exec (World (Process E)) A)
      → Keeps Frees
          (begin_execution authority g >>= λ lease. try_finally m (release authority g lease))
  leased-Frees m = record {
    at = λ w free.
        bind-post (Given (next_lease w)) (Ended (next_lease w)) _
          (λ lease v same. finally-Ended (next_lease w) lease m v same) (λ e v p. p)
          (begin_execution authority g) w (begin-Given w free);
  }

  under_execution-Frees :
      {A : Type 0} (work : Exec (World (Process E)) A)
      (check : A → Exec (World (Process E)) (Unit {0}))
      → Keeps Frees (under_execution authority g work check)
  unfolding under_execution
  under_execution-Frees work check =
      Keeps-bind-both alone both receipt-Untouched λ expected. leased-Frees _

-- An action of the two controllers that is carried out: `dryRun` is false.
pub data Action : Type 0 where
  apply_it rollback_it : String → Option String → Action
  publish_it : List ℕ → PublicationAction → PageTarget → Option String → Action

module _ {E : Type 0} (host : Host (Process E)) (publication : PublicationHost (Process E))
    (authority : AuthorityHost E) (g : ManagedGuard) where
  -- The state after an action, whether it returned or threw.
  unfoldable pub after_action : Action → World (Process E) → World (Process E)
  after_action (apply_it id key) w = final (apply host authority g id false key w)
  after_action (rollback_it id key) w = final (rollback host authority g id false key w)
  after_action (publish_it delays a t key) w =
      final (execute publication authority g delays a t false key w)

  own_record-Untouched : (id : String) → Keeps Untouched (own_record host authority g id)
  unfolding own_record
  own_record-Untouched id =
      Keeps-bind Untouched-preorder (reads-Untouched (load_change_set id)) λ r.
        Keeps-bind Untouched-preorder (own-Untouched authority g _)
          λ _. Keeps-pure Untouched-preorder r

  apply-Frees :
      (id : String) (key : Option String) → Keeps Frees (apply host authority g id false key)
  unfolding apply apply_own Calls.assert_change
  apply-Frees id key = Keeps-bind-both alone both (own_record-Untouched id) λ r.
      Keeps-bind-both alone both (asserts-Untouched authority g _)
        λ _. under_execution-Frees authority g _ _

  rollback-Frees :
      (id : String) (key : Option String) → Keeps Frees (rollback host authority g id false key)
  unfolding rollback rollback_own Calls.assert_rollback
  rollback-Frees id key = Keeps-bind-both alone both (own_record-Untouched id) λ r.
      Keeps-bind-both alone both (asserts-Untouched authority g _)
        λ _. under_execution-Frees authority g _ _

  execute-Frees :
      (delays : List ℕ) (a : PublicationAction) (t : PageTarget) (key : Option String)
      → Keeps Frees (execute publication authority g delays a t false key)
  unfolding execute Calls.assert_publication
  execute-Frees delays a t key =
      Keeps-bind-both alone both (asserts-Untouched authority g _)
        λ _. under_execution-Frees authority g _ _

  -- However an action that is carried out ends, returned or thrown, and whatever the editor does
  -- to the manager meanwhile, the execution lease that the action takes, which is the next object
  -- of the manager, is not held after it, if it was not held before.
  pub lease_ends :
      (x : Action) (w : World (Process E))
      → IsFree (next_lease w) w.outside
      → IsFree (next_lease w) (after_action x w).outside
  unfolding after_action
  lease_ends (apply_it id key) w = (apply-Frees id key).at w
  lease_ends (rollback_it id key) w = (rollback-Frees id key).at w
  lease_ends (publish_it delays a t key) w = (execute-Frees delays a t key).at w
