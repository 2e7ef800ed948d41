-- ===== src/Router/TrackA/Frame.antt =====
-- Track A as a whole keeps a relation that its single steps keep.
use wyndpy.Base.{
  ℕ, zero, suc, ◌+◌, String, List, [], ◌∷◌, Option, none, some, contains, length, ℕ_eq, ◌≡◌, sym,
  ◌∙◌, ap, subst,
}
use wyndpy.Core.Results.{Bytes, RetrievalResult, RetrievalError, Retrieval, result, error}
use wyndpy.Core.Item.{ResolvableItem, ItemStatus, resolved, fetch_exhausted}
use wyndpy.Core.Protocols.{Fetcher, Parser}
use wyndpy.Router.Setup.{Router, parser_for_content_type}
use wyndpy.Router.Action.{
  Action, ◌>>=◌, ◌>>◌, pure, State, fetched, slept, parsed, upserted, fetch, sleep, parse, upsert,
  modify_item,
}
use wyndpy.Router.Keeps.{
  after, changed, IsPreorder, Keeps, Keeps-pure, Keeps-exhaust, Keeps-raise, Keeps-change,
  Keeps-bind, Keeps-gets, Keeps-if, Keeps-option, Keeps-call, KeepsLocks, under_lock-Keeps,
}
use wyndpy.Router.TrackA.{
  no_fetchers, retry, fetch_with_retry, run_parser, on_result, exhausted, escalate, walk,
  fetch_first, known_source, resolve_known_source,
}

module _ {W : Type 0} where
  -- What the steps of `_fetch_with_retry` on `url` do to the state.
  pub record KeepsFetching (url : String) (R : State W → State W → Type 0) : Type 0 where
    pub preorder : IsPreorder R
    pub fetches : (id : ℕ) (s : State W) (w : W) → R s (after (fetched id url) s w)
    pub sleeps : (n : ℕ) (s : State W) (w : W) → R s (after (slept n) s w)

  -- What a walk over `url` does to the state, where a change of the item and its save are one step.
  pub record KeepsChanges (url : String) (R : State W → State W → Type 0) : Type 0 where
    pub fetching : KeepsFetching url R
    pub open fetching use *
    pub parses :
        (name : String) (body : Bytes) (mime : String) (s : State W) (w : W)
        → R s (after (parsed name body mime) s w)
    pub marks :
        (status : ItemStatus) (s : State W) (w : W)
        → R s (changed (record s.item { status = status }) s w)
    pub rehashes :
        (hash : Option String) (s : State W) (w : W)
        → R s (changed (record s.item { last_content_hash = hash; status = resolved }) s w)

  -- What each step of a walk over `url` does to the state.
  pub record KeepsSteps (url : String) (R : State W → State W → Type 0) : Type 0 where
    pub fetching : KeepsFetching url R
    pub open fetching use *
    pub parses :
        (name : String) (body : Bytes) (mime : String) (s : State W) (w : W)
        → R s (after (parsed name body mime) s w)
    pub saves : (s : State W) (w : W) → R s (after (upserted s.item) s w)
    pub marks :
        (status : ItemStatus) (s : State W)
        → R s (record s { item = record s.item { status = status } })
    pub rehashes :
        (hash : Option String) (s : State W)
        → R s (record s { item = record s.item { last_content_hash = hash; status = resolved } })

module _ {W : Type 0} (r : Router W) {url : String} {R : State W → State W → Type 0}
    (k : KeepsFetching url R) where
  retry-Keeps :
      (f : Fetcher W) (left attempt : ℕ) (outcome : Retrieval)
      → Keeps R (retry r f url left attempt outcome)
  unfolding retry sleep fetch
  retry-Keeps f zero attempt outcome = Keeps-pure k.preorder _
  retry-Keeps f (suc left) attempt outcome = Keeps-if k.preorder _ _ _ (Keeps-pure k.preorder _) (
      Keeps-bind k.preorder _ _ (Keeps-call _ _ (k.sleeps _)) λ _.
        Keeps-bind k.preorder _ _ (Keeps-call _ _ (k.fetches f.object_id))
          λ next. retry-Keeps f left (attempt + 1) next)

  pub fetch_with_retry-Keeps : (f : Fetcher W) → Keeps R (fetch_with_retry r f url)
  unfolding fetch_with_retry fetch
  fetch_with_retry-Keeps f =
      Keeps-bind k.preorder _ _ (Keeps-call _ _ (k.fetches f.object_id)) λ o. retry-Keeps f _ 0 o

module _ {W : Type 0} {url : String} {R : State W → State W → Type 0} (k : KeepsSteps url R) where
  KeepsSteps-KeepsChanges : KeepsChanges url R
  KeepsSteps-KeepsChanges = record {
    fetching = k.fetching;
    parses = k.parses;
    marks = λ status s w. k.preorder.both (k.marks status s) (k.saves _ w);
    rehashes = λ hash s w. k.preorder.both (k.rehashes hash s) (k.saves _ w);
  }

module _ {W : Type 0} (r : Router W) {url : String} {R : State W → State W → Type 0}
    (k : KeepsChanges url R) where
  run_parser-Keeps : (p : Parser W) (res : RetrievalResult) → Keeps R (run_parser r p res)
  unfolding run_parser parse
  run_parser-Keeps p res =
      Keeps-option k.preorder res.raw_bytes _ _ (Keeps-pure k.preorder _)
        λ body. Keeps-call _ _ (k.parses p.name body res.content_type)

  saved-Keeps :
      (f : ResolvableItem → ResolvableItem) (o : Retrieval)
      → ((s : State W) (w : W) → R s (changed (f s.item) s w))
      → Keeps R (do modify_item f; upsert r; pure o)
  saved-Keeps f o h = Keeps-change k.preorder r f (pure o) h (Keeps-pure k.preorder o)

  on_result-Keeps : (f : Fetcher W) (res : RetrievalResult) → Keeps R (on_result r f res)
  unfolding on_result
  on_result-Keeps f res = Keeps-gets k.preorder _ _ λ item.
      Keeps-if k.preorder _ _ _ (saved-Keeps _ _ (k.marks resolved)) (
        Keeps-option k.preorder (parser_for_content_type r f.name res.content_type) _ _
          (saved-Keeps _ _ (k.rehashes (some res.content_hash))) λ p. run_parser-Keeps p res)

  exhausted-Keeps : (last_error : Option RetrievalError) → Keeps R (exhausted r last_error)
  unfolding exhausted
  exhausted-Keeps last_error = saved-Keeps _ _ (k.marks fetch_exhausted)

  Keeps-retrieval :
      (o : Retrieval) (m : RetrievalResult → Action W Retrieval)
      (n : RetrievalError → Action W Retrieval)
      → ((res : RetrievalResult) → Keeps R (m res))
      → ((e : RetrievalError) → Keeps R (n e))
      → Keeps R (elim o [ result res ↦ m res | error e ↦ n e ])
  Keeps-retrieval (result res) m n km kn = km res
  Keeps-retrieval (error e) m n km kn = kn e

  pub walk-Keeps :
      (fuel : ℕ) (current : Option (Fetcher W)) (legacy_idx : ℕ)
      (last_error : Option RetrievalError) (visited : List ℕ)
      → Keeps R (walk r fuel url current legacy_idx last_error visited)
  unfolding walk
  walk-Keeps fuel none legacy_idx last_error visited = exhausted-Keeps last_error
  walk-Keeps zero (some f) legacy_idx last_error visited =
      Keeps-if k.preorder (contains visited f.object_id) _ _ (exhausted-Keeps last_error)
        (Keeps-exhaust k.preorder)
  walk-Keeps (suc fuel) (some f) legacy_idx last_error visited =
      Keeps-if k.preorder (contains visited f.object_id) _ _ (exhausted-Keeps last_error) (
        Keeps-bind k.preorder _ _ (fetch_with_retry-Keeps r k.fetching f) λ o.
          Keeps-retrieval o _ _ (on_result-Keeps f) λ e.
            walk-Keeps fuel (escalate r f e.error_type (legacy_idx + 1)) (legacy_idx + 1) (some e)
              (f.object_id ∷ visited))

  fetch_first-Keeps : (id : String) (rest : List String) → Keeps R (fetch_first r id (url ∷ rest))
  unfolding fetch_first
  fetch_first-Keeps id rest = go r.fetchers
    where
      go :
          (fs : List (Fetcher W))
          → Keeps R (elim fs [
            | [] ↦ pure (error no_fetchers)
            | f ∷ _ ↦ walk r (length r.fetchers) url (some f) 0 none []
          ])
      go [] = Keeps-pure k.preorder _
      go (f ∷ _) = walk-Keeps (length r.fetchers) (some f) 0 none []

  known_source-Keeps :
      (s : State W) (rest : List String)
      → s.item.current_sources ≡ url ∷ rest
      → R s (known_source r s).1
  unfolding known_source ◌>>=◌
  known_source-Keeps s rest e =
      subst (λ sources. R s (fetch_first r s.item.id sources s).1) (sym e)
        ((fetch_first-Keeps s.item.id rest).at s)

module _ {W : Type 0} (r : Router W) {url : String} {R : State W → State W → Type 0}
    (k : KeepsSteps url R) where
  -- From a state whose item has `url` as its first source, with what the lock's steps keep too.
  pub resolve_known_source-Keeps :
      KeepsLocks R
      → (s : State W) (rest : List String) → s.item.current_sources ≡ url ∷ rest
      → R s (resolve_known_source r s).1
  unfolding resolve_known_source ◌>>=◌
  resolve_known_source-Keeps l s rest e =
      under_lock-Keeps k.preorder l s.item.id (known_source r) s λ t same.
        known_source-Keeps r (KeepsSteps-KeepsChanges k) t rest
          (ap (λ i. i.current_sources) same ∙ e)

module _ {W : Type 0} (r : Router W) {R : State W → State W → Type 0} (p : IsPreorder R)
    (l : KeepsLocks R) (k : (url : String) → KeepsChanges url R) where
  sources-Keeps : (id : String) (sources : List String) → Keeps R (fetch_first r id sources)
  unfolding fetch_first
  sources-Keeps id [] = Keeps-raise p _
  sources-Keeps id (url ∷ rest) = fetch_first-Keeps r (k url) id rest

  -- From any state, whichever the item's sources are.
  pub resolve_known_source-KeepsChanges : (s : State W) → R s (resolve_known_source r s).1
  unfolding resolve_known_source known_source ◌>>=◌
  resolve_known_source-KeepsChanges s =
      under_lock-Keeps p l s.item.id (known_source r) s
        λ t same. (sources-Keeps t.item.id t.item.current_sources).at t
