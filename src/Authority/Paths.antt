-- ===== src/Authority/Paths.antt =====
-- A scope covers a target when its path of identifiers is a prefix of the target's
-- (src/core/task-authority.ts).
use tilda_mcp.Prelude.{
  String, ◌==◌, ◌≡◌, refl, sym, ◌∙◌, List, [], ◌∷◌, Bool, true, false, ◌&&◌, ◌||◌, arith,
}
use tilda_mcp.Contracts.Targets.{
  ExactTarget, project_target, page_target, record_target, element_target,
}
use tilda_mcp.Authority.Scope.{covers_within, task_scope_covers, scopes_overlap}

-- The identifiers from the project down to the target.
unfoldable pub path : ExactTarget → List String
path (project_target p) = p ∷ []
path (page_target p g) = p ∷ g ∷ []
path (record_target p g r) = p ∷ g ∷ r ∷ []
path (element_target p g r e) = p ∷ g ∷ r ∷ e ∷ []

unfoldable pub is_prefix : List String → List String → Bool
is_prefix [] ys = true
is_prefix (x ∷ xs) [] = false
is_prefix (x ∷ xs) (y ∷ ys) = x == y && is_prefix xs ys

-- The function that decides by the kinds of targets agrees with the order of prefixes.
pub task_scope_covers-eq-is_prefix :
    (s t : ExactTarget) → task_scope_covers s t ≡ is_prefix (path s) (path t)
unfolding task_scope_covers covers_within is_prefix path
task_scope_covers-eq-is_prefix (project_target p) (project_target q) = ground arith
task_scope_covers-eq-is_prefix (project_target p) (page_target q h) = ground arith
task_scope_covers-eq-is_prefix (project_target p) (record_target q h r) = ground arith
task_scope_covers-eq-is_prefix (project_target p) (element_target q h r e) = ground arith
task_scope_covers-eq-is_prefix (page_target p g) (project_target q) = ground arith
task_scope_covers-eq-is_prefix (page_target p g) (page_target q h) = ground arith
task_scope_covers-eq-is_prefix (page_target p g) (record_target q h r) = ground arith
task_scope_covers-eq-is_prefix (page_target p g) (element_target q h r e) = ground arith
task_scope_covers-eq-is_prefix (record_target p g r) (project_target q) = ground arith
task_scope_covers-eq-is_prefix (record_target p g r) (page_target q h) = ground arith
task_scope_covers-eq-is_prefix (record_target p g r) (record_target q h s) = ground arith
task_scope_covers-eq-is_prefix (record_target p g r) (element_target q h s f) = ground arith
task_scope_covers-eq-is_prefix (element_target p g r e) (project_target q) = ground arith
task_scope_covers-eq-is_prefix (element_target p g r e) (page_target q h) = ground arith
task_scope_covers-eq-is_prefix (element_target p g r e) (record_target q h s) = ground arith
task_scope_covers-eq-is_prefix (element_target p g r e) (element_target q h s f) = ground arith

is_prefix_trans :
    (xs ys zs : List String)
    → is_prefix xs ys ≡ true
    → is_prefix ys zs ≡ true
    → is_prefix xs zs ≡ true
unfolding is_prefix
is_prefix_trans [] ys zs h k = refl
is_prefix_trans (x ∷ xs) [] zs h k = ground arith
is_prefix_trans (x ∷ xs) (y ∷ ys) [] h k = ground arith
is_prefix_trans (x ∷ xs) (y ∷ ys) (z ∷ zs) h k = ground (arith, is_prefix_trans xs ys zs)

-- Two prefixes of one path are comparable.
is_prefix_comparable :
    (xs ys zs : List String)
    → is_prefix xs zs ≡ true
    → is_prefix ys zs ≡ true
    → (is_prefix xs ys || is_prefix ys xs) ≡ true
unfolding is_prefix
is_prefix_comparable [] ys zs h k = refl
is_prefix_comparable (x ∷ xs) [] zs h k = refl
is_prefix_comparable (x ∷ xs) (y ∷ ys) [] h k = ground arith
is_prefix_comparable (x ∷ xs) (y ∷ ys) (z ∷ zs) h k = ground (arith, is_prefix_comparable xs ys zs)

pub covers_trans :
    (s t u : ExactTarget)
    → task_scope_covers s t ≡ true
    → task_scope_covers t u ≡ true
    → task_scope_covers s u ≡ true
covers_trans s t u h k =
    task_scope_covers-eq-is_prefix s u
    ∙ is_prefix_trans (path s) (path t) (path u) (sym (task_scope_covers-eq-is_prefix s t) ∙ h)
        (sym (task_scope_covers-eq-is_prefix t u) ∙ k)

covers_comparable :
    (s t u : ExactTarget)
    → task_scope_covers s u ≡ true
    → task_scope_covers t u ≡ true
    → (task_scope_covers s t || task_scope_covers t s) ≡ true
covers_comparable s t u h k = rw (task_scope_covers-eq-is_prefix s t) (
    rw (task_scope_covers-eq-is_prefix t s) (
      is_prefix_comparable (path s) (path t) (path u) (sym (task_scope_covers-eq-is_prefix s u) ∙ h)
        (sym (task_scope_covers-eq-is_prefix t u) ∙ k)))

-- A scope that overlaps a part of another overlaps the whole.
pub overlap_up :
    (s w t : ExactTarget)
    → task_scope_covers w t ≡ true
    → scopes_overlap s t ≡ true
    → scopes_overlap s w ≡ true
unfolding scopes_overlap
overlap_up s w t h k = ground (arith, covers_comparable s w t, covers_trans w t s)
