-- ===== src/Effect/Post.antt =====
-- What holds of how a method ends, from what holds of how its parts end.
use tilda_mcp.Effect.Codes.{Failure}
use tilda_mcp.Effect.State.{Outcome, returned, threw, Exec, try_catch, ◌>>=◌}

module _ {W A B : Type 0} (P : Outcome W A → Type 0) (Q : Outcome W B → Type 0) (f : A → Exec W B)
    (k : (a : A) (v : W) → P (returned a v) → Q (f a v))
    (l : (e : Failure) (v : W) → P (threw e v) → Q (threw e v)) where
  bind_step : (o : Outcome W A) → P o → Q (elim o [ returned a v ↦ f a v | threw e v ↦ threw e v ])
  bind_step (returned a v) p = k a v p
  bind_step (threw e v) p = l e v p

  pub bind-post : (m : Exec W A) (w : W) → P (m w) → Q ((m >>= f) w)
  unfolding ◌>>=◌
  bind-post m w p = bind_step (m w) p

module _ {W A : Type 0} (P Q : Outcome W A → Type 0) (h : Failure → Exec W A)
    (k : (a : A) (v : W) → P (returned a v) → Q (returned a v))
    (l : (e : Failure) (v : W) → P (threw e v) → Q (h e v)) where
  catch_step :
      (o : Outcome W A) → P o → Q (elim o [ returned a v ↦ returned a v | threw e v ↦ h e v ])
  catch_step (returned a v) p = k a v p
  catch_step (threw e v) p = l e v p

  pub catch-post : (m : Exec W A) (w : W) → P (m w) → Q (try_catch m h w)
  unfolding try_catch
  catch-post m w p = catch_step (m w) p
