-- ===== src/Router/TrackA/Ends.antt =====
-- Actions that end, and the parts of Track A that end by their form.
use wyndpy.Base.{
  ℕ, zero, suc, ◌+◌, String, Bool, true, false, Option, ℕ_eq, string_eq, ◌≢◌, refl, arith,
  if◌then◌else◌,
}
use wyndpy.Base.Reply.{Exception, Reply}
use wyndpy.Core.Results.{RetrievalResult, RetrievalError, Retrieval, result, error}
use wyndpy.Core.Protocols.{Fetcher}
use wyndpy.Router.Setup.{Router}
use wyndpy.Router.Action.{
  State, Action, Event, Exit, returned, failed, out_of_fuel, continue, pure, raise, ◌>>=◌, call,
  modify_item, upsert, fetch, sleep, parse,
}
use wyndpy.Router.TrackA.{retry, fetch_with_retry, run_parser, on_result, exhausted}

module _ {W : Type 0} where
  pub record Ends {A : Type 0} (m : Action W A) : Type 0 where
    pub at : (s : State W) → (m s).0 ≢ out_of_fuel

  pub Ends-pure : {A : Type 0} (a : A) → Ends (pure a)
  unfolding pure
  Ends-pure a = record { at = λ s. cc }

  pub Ends-raise : {A : Type 0} (e : Exception) → Ends (raise {A = A} e)
  unfolding raise
  Ends-raise e = record { at = λ s. cc }

  pub Ends-call : {A : Type 0} (e : Event) (f : W → Reply A × W) → Ends (call e f)
  unfolding call
  Ends-call e f = record { at = λ s. ground arith }

  pub Ends-bind :
      {A B : Type 0} (m : Action W A) (f : A → Action W B)
      → Ends m
      → ((a : A) → Ends (f a))
      → Ends (m >>= f)
  unfolding ◌>>=◌
  Ends-bind {A} {B} m f em ef = record { at = λ s. go (m s).0 (m s).1 (em.at s) }
    where
      go : (x : Exit A) (t : State W) → x ≢ out_of_fuel → (continue x f t).0 ≢ out_of_fuel
      go (returned a) t h = (ef a).at t
      go (failed e) t h = cc
      go out_of_fuel t h = absurd (h refl)

  pub Ends-if :
      {A : Type 0} (b : Bool) (m m' : Action W A) → Ends m → Ends m' → Ends (if b then m else m')
  Ends-if true m m' e e' = e
  Ends-if false m m' e e' = e'

  pub Ends-retrieval :
      {A : Type 0} (o : Retrieval) (m : RetrievalResult → Action W A)
      (m' : RetrievalError → Action W A)
      → ((res : RetrievalResult) → Ends (m res))
      → ((e : RetrievalError) → Ends (m' e))
      → Ends (elim o [ result res ↦ m res | error e ↦ m' e ])
  Ends-retrieval (result res) m m' c c' = c res
  Ends-retrieval (error e) m m' c c' = c' e

module _ {W : Type 0} (r : Router W) where
  retry-Ends :
      (f : Fetcher W) (url : String) (left attempt : ℕ) (outcome : Retrieval)
      → Ends (retry r f url left attempt outcome)
  unfolding retry sleep fetch
  retry-Ends f url zero attempt outcome = Ends-pure outcome
  retry-Ends f url (suc left) attempt outcome = Ends-if _ _ _ (Ends-pure outcome) (
      Ends-bind _ _ (Ends-call _ _)
        λ _. Ends-bind _ _ (Ends-call _ _) λ next. retry-Ends f url left (attempt + 1) next)

  pub fetch_with_retry-Ends : (f : Fetcher W) (url : String) → Ends (fetch_with_retry r f url)
  unfolding fetch_with_retry fetch
  fetch_with_retry-Ends f url =
      Ends-bind _ _ (Ends-call _ _) λ o. retry-Ends f url r.config.retry_attempts 0 o

  pub exhausted-Ends : (e : Option RetrievalError) → Ends (exhausted r e)
  unfolding exhausted ◌>>=◌ modify_item upsert call
  exhausted-Ends e = record { at = λ s. ground arith }

  pub on_result-Ends : (f : Fetcher W) (res : RetrievalResult) → Ends (on_result r f res)
  unfolding on_result run_parser parse ◌>>=◌ modify_item upsert call
  on_result-Ends f res = record { at = λ s. ground arith }
