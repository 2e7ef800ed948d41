-- ===== src/Router/TrackA/Retries.antt =====
-- `_fetch_with_retry` against a description of the attempts that it makes.
mod Tests
use wyndpy.Base.{
  ℕ, zero, suc, ◌+◌, ◌-◌, ◌*◌, ◌^◌, ◌≤◌, String, Bool, true, false, ◌≡◌, ◌↔◌, ◌⊎◌, refl, sym, ap,
  ◌∙◌, inl, inr, Bool-cases, arith, ℕ_eq, subst,
}
use wyndpy.Core.Results.{Retrieval}
use wyndpy.Core.Protocols.{Fetcher}
use wyndpy.Router.Setup.{Router}
use wyndpy.Router.Action.{State, Action, returned, fetch, sleep, pure, ◌>>=◌, ◌>>◌}
use wyndpy.Router.Keeps.{bind-returned, bind-eq-returned, pure-eq-returned}
use wyndpy.Router.TrackA.{is_retryable, retry, fetch_with_retry}

module _ {W : Type 0} (r : Router W) (f : Fetcher W) (url : String) where
  -- A first fetch and `n` retries from `s`, the last of which gives `o` and leaves `t`: before the
  -- retry of number `i` stands a retryable outcome and a wait of `2 ^ i` times the base.
  pub data Attempts (s : State W) : ℕ → Retrieval → State W → Type 0 where
    first : (o : Retrieval) (t : State W) → fetch f url s ≡ (returned o, t) → Attempts s 0 o t
    again :
        (n : ℕ) (o : Retrieval) (t u : State W) (next : Retrieval) (v : State W)
        → Attempts s n o t
        → is_retryable o ≡ true
        → sleep r (r.config.retry_backoff_base * 2 ^ n) t ≡ (returned tt, u)
        → fetch f url u ≡ (returned next, v)
        → Attempts s (n + 1) next v

  -- The outcome that ends the attempts: the last that is allowed, or one that is not retryable.
  pub data IsLast (n : ℕ) (o : Retrieval) : Type 0 where
    used_up : n ≡ r.config.retry_attempts → IsLast n o
    settled : is_retryable o ≡ false → IsLast n o

  retry-settled :
      (left n : ℕ) (o : Retrieval) → is_retryable o ≡ false → retry r f url (suc left) n o ≡ pure o
  unfolding retry
  retry-settled left n o h = rw (retry, h) refl

  retry-again :
      (left n : ℕ) (o : Retrieval)
      → is_retryable o ≡ true
      → retry r f url (suc left) n o ≡ (do
        sleep r (r.config.retry_backoff_base * 2 ^ n)
        next ← fetch f url
        retry r f url left (n + 1) next)
  unfolding retry
  retry-again left n o h = rw (retry, h) refl

  Run : State W → Retrieval → State W → Type 0
  Run s o t = (n : ℕ) × (n ≤ r.config.retry_attempts) × Attempts s n o t × IsLast n o

  done-Run :
      (s : State W) (n : ℕ) (o : Retrieval) (t : State W) (last : Retrieval) (end : State W)
      → n ≤ r.config.retry_attempts
      → Attempts s n o t
      → IsLast n o
      → pure o t ≡ (returned last, end)
      → Run s last end
  unfolding Run
  done-Run s n o t last end h made ends e =
      let (same_o, same_t) = pure-eq-returned e in
      subst (λ o'. Run s o' end) same_o (subst (λ t'. Run s o t') same_t (n, h, made, ends))

  retry-Run :
      (s : State W) (left n : ℕ) (o : Retrieval) (t : State W) (last : Retrieval) (end : State W)
      → Attempts s n o t
      → n + left ≡ r.config.retry_attempts
      → retry r f url left n o t ≡ (returned last, end)
      → Run s last end
  unfolding Run retry
  retry-Run s zero n o t last end made h e =
      let h' : n ≡ r.config.retry_attempts = omega (arith, h) in
      done-Run s n o t last end (omega (arith, h)) made (used_up h') e
  retry-Run s (suc left) n o t last end made h e = elim (Bool-cases (is_retryable o)) [
    | inr final ↦
        done-Run s n o t last end (omega (arith, h)) made (settled final)
          (sym (ap (λ m. m t) (retry-settled left n o final)) ∙ e)
    | inl retryable ↦
        let e' = sym (ap (λ m. m t) (retry-again left n o retryable)) ∙ e in
        let (_, u, slept, rest) = bind-eq-returned _ _ t e' in
        let (next, v, fetched, rest') = bind-eq-returned _ _ u rest in
        retry-Run s left (n + 1) next v last end (again n o t u next v made retryable slept fetched)
          (omega (arith, h)) rest'
  ]

  stop :
      (left n : ℕ) (o : Retrieval) (t : State W)
      → is_retryable o ≡ false
      → retry r f url left n o t ≡ (returned o, t)
  unfolding retry pure
  stop zero n o t h = refl
  stop (suc left) n o t h = ap (λ m. m t) (retry-settled left n o h)

  -- What `_fetch_with_retry` comes to after `n` retries.
  Attempts-retry :
      (s : State W) (n left : ℕ) (o : Retrieval) (t : State W)
      → Attempts s n o t
      → n + left ≡ r.config.retry_attempts
      → fetch_with_retry r f url s ≡ retry r f url left n o t
  unfolding fetch_with_retry
  Attempts-retry s _ left _ _ (first o t e) h =
      bind-returned _ _ s o t e ∙ ap (λ l. retry r f url l 0 o t) (omega (arith, h))
  Attempts-retry s _ left _ _ (again m o t u next v made retryable slept fetched) h =
      Attempts-retry s m (suc left) o t made (omega (arith, h))
      ∙ ap (λ m. m t) (retry-again left m o retryable)
      ∙ bind-returned _ _ t tt u slept
      ∙ bind-returned _ _ u next v fetched

  Run-fetch_with_retry :
      (s : State W) (o : Retrieval) (t : State W)
      → Run s o t
      → fetch_with_retry r f url s ≡ (returned o, t)
  unfolding Run retry pure
  Run-fetch_with_retry s o t (n, h, made, used_up same) =
      Attempts-retry s n 0 o t made (omega (arith, same))
  Run-fetch_with_retry s o t (n, h, made, settled final) =
      let left = r.config.retry_attempts - n in
      Attempts-retry s n left o t made (omega (arith, h)) ∙ stop left n o t final

  -- `_fetch_with_retry` returns an outcome exactly if a fetch and at most `retry_attempts` retries
  -- come to it, before each retry of which stands a retryable outcome and a wait that is twice the
  -- one before, and the outcome is not retryable or the retries are used up.
  pub fetch_with_retry-Attempts :
      (s : State W) (o : Retrieval) (t : State W)
      → (fetch_with_retry r f url s ≡ (returned o, t))
        ↔ ((n : ℕ) × (n ≤ r.config.retry_attempts) × Attempts s n o t × IsLast n o)
  unfolding fetch_with_retry Run
  fetch_with_retry-Attempts s o t = (
    λ e.
        let (o', t', e', rest) = bind-eq-returned _ _ s e in
        retry-Run s r.config.retry_attempts 0 o' t' o t (first o' t' e') (omega arith) rest,
    Run-fetch_with_retry s o t,
  )
