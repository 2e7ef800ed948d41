-- ===== src/Router/TrackA/Costs.antt =====
-- What a run of Track A adds up to at most, where each event of its history has a weight.
use wyndpy.Base.{
  ℕ, zero, suc, ◌+◌, ◌*◌, ◌≤◌, String, List, [], ◌∷◌, Bool, true, false, Option, none, some,
  contains, length, ◌≡◌, Option-cases, inl, inr, string_eq, ℕ_eq, arith, if◌then◌else◌,
}
use wyndpy.Base.Reply.{Exception}
use wyndpy.Core.Item.{ResolvableItem, resolved}
use wyndpy.Core.Results.{Bytes, RetrievalResult, RetrievalError, Retrieval, result, error}
use wyndpy.Core.Protocols.{Fetcher, Parser}
use wyndpy.Router.Setup.{Router, parser_for_content_type}
use wyndpy.Router.Action.{
  State, Action, Event, parsed, upserted, acquired, released, Exit, returned, failed, out_of_fuel,
  continue, pure, raise, exhaust, gets, ◌>>=◌, ◌>>◌, call, modify_item, upsert, parse, lock_for,
  with_lock, setdefault_lock,
}
use wyndpy.Router.TrackA.{
  no_fetchers, fetch_with_retry, run_parser, on_result, exhausted, escalate, walk, fetch_first,
  known_source, resolve_known_source,
}

-- The weights of a history.
abbrev pub total : (Event → ℕ) → List Event → ℕ
total weight [] = 0
total weight (e ∷ h) = weight e + total weight h

-- `m` adds at most `n`.
pub record Costs {W A : Type 0} (weight : Event → ℕ) (n : ℕ) (m : Action W A) : Type 0 where
  pub at : (s : State W) → total weight (m s).1.history ≤ total weight s.history + n

module _ {W : Type 0} (weight : Event → ℕ) where
  pub Costs-mono :
      {A : Type 0} {n k : ℕ} {m : Action W A} → Costs weight n m → n ≤ k → Costs weight k m
  Costs-mono c h = record { at = λ s. omega (arith, c.at s) }

  pub Costs-pure : {A : Type 0} (a : A) (n : ℕ) → Costs {W = W} weight n (pure a)
  unfolding pure
  Costs-pure a n = record { at = λ s. omega arith }

  pub Costs-bind :
      {A B : Type 0} (n k : ℕ) (m : Action W A) (f : A → Action W B)
      → Costs weight n m
      → ((a : A) → Costs weight k (f a))
      → Costs weight (n + k) (m >>= f)
  unfolding ◌>>=◌
  Costs-bind {A} {B} n k m f cm cf = record { at = λ s. omega (arith, cm.at s, go (m s).0 (m s).1) }
    where
      go :
          (x : Exit A) (t : State W)
          → total weight (continue x f t).1.history ≤ total weight t.history + k
      go (returned a) t = (cf a).at t
      go (failed e) t = omega arith
      go out_of_fuel t = omega arith

  pub Costs-if :
      {A : Type 0} (b : Bool) (n : ℕ) (m m' : Action W A)
      → Costs weight n m
      → Costs weight n m'
      → Costs weight n (if b then m else m')
  Costs-if true n m m' c c' = c
  Costs-if false n m m' c c' = c'

  pub Costs-raise : {A : Type 0} (e : Exception) (n : ℕ) → Costs {W = W} weight n (raise {A = A} e)
  unfolding raise
  Costs-raise e n = record { at = λ s. omega arith }

  pub Costs-exhaust : {A : Type 0} (n : ℕ) → Costs {W = W} weight n (exhaust {A = A})
  unfolding exhaust
  Costs-exhaust n = record { at = λ s. omega arith }

  pub Costs-retrieval :
      {A : Type 0} (o : Retrieval) (n : ℕ) (m : RetrievalResult → Action W A)
      (m' : RetrievalError → Action W A)
      → ((res : RetrievalResult) → Costs weight n (m res))
      → ((e : RetrievalError) → Costs weight n (m' e))
      → Costs weight n (elim o [ result res ↦ m res | error e ↦ m' e ])
  Costs-retrieval (result res) n m m' c c' = c res
  Costs-retrieval (error e) n m m' c c' = c' e

-- Only fetches and waits may have a weight.
pub record IsLight (weight : Event → ℕ) : Type 0 where
  pub parses : (name : String) (body : Bytes) (mime : String) → weight (parsed name body mime) ≡ 0
  pub saves : (i : ResolvableItem) → weight (upserted i) ≡ 0
  pub acquires : (l : ℕ) → weight (acquired l) ≡ 0
  pub releases : (l : ℕ) → weight (released l) ≡ 0

module _ {W : Type 0} (weight : Event → ℕ) (light : IsLight weight) (r : Router W) (per_round : ℕ)
    (url : String)
    (round-Costs : (f : Fetcher W) → Costs weight per_round (fetch_with_retry r f url)) where
  upsert-Costs : Costs weight 0 (upsert r)
  unfolding upsert call
  upsert-Costs = record { at = λ s. omega (arith, light.saves s.item) }

  gets-Costs : {A : Type 0} (g : State W → A) → Costs {W = W} weight 0 (gets g)
  unfolding gets
  gets-Costs g = record { at = λ s. omega arith }

  modify_item-Costs : (f : ResolvableItem → ResolvableItem) → Costs {W = W} weight 0 (modify_item f)
  unfolding modify_item
  modify_item-Costs f = record { at = λ s. omega arith }

  saved-Costs :
      (f : ResolvableItem → ResolvableItem) (o : Retrieval)
      → Costs weight 0 (do modify_item f; upsert r; pure o)
  saved-Costs f o =
      Costs-bind weight 0 0 _ _ (modify_item-Costs f)
        λ _. Costs-bind weight 0 0 _ _ upsert-Costs λ _. Costs-pure weight o 0

  pub exhausted-Costs : (e : Option RetrievalError) (n : ℕ) → Costs weight n (exhausted r e)
  unfolding exhausted
  exhausted-Costs e n = Costs-mono weight (saved-Costs _ _) (omega arith)

  run_parser-Costs : (p : Parser W) (res : RetrievalResult) → Costs weight 0 (run_parser r p res)
  unfolding run_parser parse call pure
  run_parser-Costs p res = record {
    at = λ s. elim (Option-cases res.raw_bytes) [
      | inl missing ↦ ground (arith, missing)
      | inr (body, there) ↦ ground (arith, there, light.parses p.name body res.content_type)
    ];
  }

  pub on_result-Costs : (f : Fetcher W) (res : RetrievalResult) → Costs weight 0 (on_result r f res)
  unfolding on_result
  on_result-Costs f res = Costs-bind weight 0 0 _ _ (gets-Costs _) λ item.
      Costs-if weight _ 0 _ _ (saved-Costs _ _)
        (of_parser (parser_for_content_type r f.name res.content_type))
    where
      of_parser :
          (o : Option (Parser W))
          → Costs weight 0 (elim o [
            | some p ↦ run_parser r p res
            | none ↦ do
              modify_item
                  (λ i. record i { last_content_hash = some res.content_hash; status = resolved })
              upsert r
              pure (result res)
          ])
      of_parser none = saved-Costs _ _
      of_parser (some p) = run_parser-Costs p res

  walk-Costs :
      (fuel : ℕ) (current : Option (Fetcher W)) (legacy_idx : ℕ)
      (last_error : Option RetrievalError) (visited : List ℕ)
      → Costs weight (fuel * per_round) (walk r fuel url current legacy_idx last_error visited)
  unfolding walk
  walk-Costs fuel none legacy_idx last_error visited = exhausted-Costs last_error _
  walk-Costs zero (some f) legacy_idx last_error visited =
      Costs-if weight (contains visited f.object_id) _ _ _ (exhausted-Costs last_error _)
        (Costs-exhaust weight _)
  walk-Costs (suc fuel) (some f) legacy_idx last_error visited =
      Costs-if weight (contains visited f.object_id) _ _ _ (exhausted-Costs last_error _) (
        Costs-mono weight
          (Costs-bind weight per_round (fuel * per_round) _ _ (round-Costs f) λ o.
            Costs-retrieval weight o _ _ _
              (λ res. Costs-mono weight (on_result-Costs f res) (omega arith))
              λ e.
                walk-Costs fuel (escalate r f e.error_type (legacy_idx + 1)) (legacy_idx + 1)
                  (some e) (f.object_id ∷ visited))
          (omega arith))

  fetch_first-Costs :
      (id : String) (rest : List String)
      → Costs weight (length r.fetchers * per_round) (fetch_first r id (url ∷ rest))
  unfolding fetch_first
  fetch_first-Costs id rest = go r.fetchers
    where
      go :
          (fs : List (Fetcher W))
          → Costs {W = W} weight (length r.fetchers * per_round) (elim fs [
            | [] ↦ pure (error no_fetchers)
            | f ∷ _ ↦ walk r (length r.fetchers) url (some f) 0 none []
          ])
      go [] = Costs-pure weight _ _
      go (f ∷ _) = walk-Costs (length r.fetchers) (some f) 0 none []

module _ {W : Type 0} (weight : Event → ℕ) (light : IsLight weight) (r : Router W) (per_round : ℕ)
    (round-Costs : (url : String) (f : Fetcher W)
      → Costs weight per_round (fetch_with_retry r f url)) where
  sources-Costs :
      (id : String) (sources : List String)
      → Costs weight (length r.fetchers * per_round) (fetch_first r id sources)
  unfolding fetch_first
  sources-Costs id [] = Costs-raise weight _ _
  sources-Costs id (url ∷ rest) =
      fetch_first-Costs weight light r per_round url (round-Costs url) id rest

  -- A run adds at most what one fetcher adds, for each fetcher of the router.
  pub resolve_known_source-total-le :
      (s : State W)
      → total weight (resolve_known_source r s).1.history
        ≤ total weight s.history + length r.fetchers * per_round
  unfolding resolve_known_source known_source ◌>>=◌ lock_for with_lock
  resolve_known_source-total-le s =
      let found = setdefault_lock s.item.id s.locks in
      let start : State W = record s { locks = found.1; history = acquired found.0 ∷ s.history } in
      omega (
        arith,
        (sources-Costs s.item.id s.item.current_sources).at start,
        light.acquires found.0,
        light.releases found.0,
      )
