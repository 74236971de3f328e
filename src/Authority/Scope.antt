-- ===== src/Authority/Scope.antt =====
-- Scopes of a task, and the checks of lists of them (src/core/task-authority.ts).
use tilda_mcp.Prelude.{
  String, ◌<>◌, ◌==◌, List, [], ◌∷◌, Bool, true, false, ◌&&◌, ◌||◌, if◌then◌else◌, ltb, length, any,
  is_canonical_id,
}
use tilda_mcp.Effect.Codes.{task_authority_invalid}
use tilda_mcp.Effect.Check.{ok, require, reject_if, ◌>>◌}
use tilda_mcp.Contracts.Targets.{
  ExactTarget, project_target, page_target, record_target, element_target,
}
use tilda_mcp.Store.Checks.{Checked}

unfoldable pub target_key : ExactTarget → String
target_key (project_target p) = "project:" <> p
target_key (page_target p g) = "page:" <> p <> ":" <> g
target_key (record_target p g r) = "record:" <> p <> ":" <> g <> ":" <> r
target_key (element_target p g r e) = "element:" <> p <> ":" <> g <> ":" <> r <> ":" <> e

unfoldable pub assert_id : String → Checked
assert_id s = require (is_canonical_id s) task_authority_invalid

unfoldable pub assert_target : ExactTarget → Checked
unfolding assert_id
assert_target (project_target p) = assert_id p
assert_target (page_target p g) = do assert_id p; assert_id g
assert_target (record_target p g r) = do assert_id p; assert_id g; assert_id r
assert_target (element_target p g r e) = do assert_id p; assert_id g; assert_id r; assert_id e

-- The loop over the targets, with the keys that were seen.
unfoldable pub assert_unseen : List String → List ExactTarget → Checked
unfolding assert_target target_key
assert_unseen seen [] = ok tt
assert_unseen seen (t ∷ ts) = do
  assert_target t
  reject_if (any (λ k. k == target_key t) seen) task_authority_invalid
  assert_unseen (target_key t ∷ seen) ts

unfoldable pub assert_target_list : List ExactTarget → Checked
unfolding assert_unseen
assert_target_list targets = do
  reject_if (ltb 256 (length targets)) task_authority_invalid
  assert_unseen [] targets

abbrev pub project_of : ExactTarget → String
project_of (project_target p) = p
project_of (page_target p g) = p
project_of (record_target p g r) = p
project_of (element_target p g r e) = p

-- `taskScopeCovers`, past the test of the project.
unfoldable pub covers_within : ExactTarget → ExactTarget → Bool
covers_within (project_target p) t = true
covers_within s (project_target q) = false
covers_within (page_target p g) (page_target q h) = g == h
covers_within (page_target p g) (record_target q h r) = g == h
covers_within (page_target p g) (element_target q h r e) = g == h
covers_within (record_target p g r) (page_target q h) = false
covers_within (record_target p g r) (record_target q h s) = g == h && r == s
covers_within (record_target p g r) (element_target q h s e) = g == h && r == s
covers_within (element_target p g r e) (page_target q h) = false
covers_within (element_target p g r e) (record_target q h s) = false
covers_within (element_target p g r e) (element_target q h s f) = g == h && r == s && e == f

unfoldable pub task_scope_covers : ExactTarget → ExactTarget → Bool
unfolding covers_within
task_scope_covers scope target =
    if project_of scope == project_of target then covers_within scope target else false

unfoldable pub scopes_overlap : ExactTarget → ExactTarget → Bool
scopes_overlap l r = task_scope_covers l r || task_scope_covers r l
