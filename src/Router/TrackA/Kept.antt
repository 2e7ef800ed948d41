-- ===== src/Router/TrackA/Kept.antt =====
-- What every fetcher and parser of a router keeps of the world outside, Track A keeps.
use wyndpy.Base.{
  ℕ, zero, suc, ◌+◌, String, List, [], ◌∷◌, Bool, true, false, Option, none, some, contains, length,
  ℕ_eq, string_eq, ◌≡◌, refl, subst, inl, inr, Bool-cases, ◌==◌, All, get_elem?, if◌then◌else◌,
  arith,
}
use wyndpy.Base.Dict.{lookup}
use wyndpy.Core.Results.{
  RetrievalResult, RetrievalError, Retrieval, ErrorType, result, error, value, error_in,
}
use wyndpy.Core.Item.{resolved}
use wyndpy.Core.Protocols.{Fetcher, Parser}
use wyndpy.Router.Setup.{
  Router, parser_for_content_type, next_fetcher_config_driven, escalation_target, or_text,
  pdf_fallback, escalatable_errors,
}
use wyndpy.Router.Action.{Action, ◌>>=◌, ◌>>◌, pure, State, upsert, modify_item}
use wyndpy.Router.Keeps.{
  Keeps, Keeps-pure, Keeps-raise, Keeps-exhaust, Keeps-bind, Keeps-gets, Keeps-if, under_lock-Keeps,
}
use wyndpy.Router.TrackA.{
  no_fetchers, run_parser, on_result, exhausted, legacy_mode, escalate, walk, fetch_first,
  known_source, resolve_known_source,
}
use wyndpy.Router.TrackA.World.{
  FetchKeeps, ParseKeeps, AllKeep, IsKept, preorder, locks, If, saved-IsKept, run_parser-IsKept,
  fetch_with_retry-IsKept,
}

module _ {W : Type 0} (Q : W → Type 0) (r : Router W) (k : AllKeep Q r) where
  -- A parser that is chosen is one of the router's.
  pdf_fallback-ParseKeeps :
      (ps : List (Parser W)) (content_type : String) (p : Parser W)
      → All (ParseKeeps Q) ps
      → pdf_fallback ps content_type ≡ some p
      → ParseKeeps Q p
  pdf_fallback-ParseKeeps [] content_type p h e = cc
  pdf_fallback-ParseKeeps (g ∷ _) content_type p (h, _) e =
      let same : g ≡ p = ground (arith, e) in subst (ParseKeeps Q) same h

  chosen-ParseKeeps :
      (name content_type : String) (p : Parser W)
      → parser_for_content_type r name content_type ≡ some p
      → ParseKeeps Q p
  unfolding parser_for_content_type
  chosen-ParseKeeps name content_type p e =
      let to_name =
        or_text (escalation_target name content_type r.tables.content_type_escalations) "" in
      elim (Bool-cases (to_name == "")) [
        | inl blank ↦ pdf_fallback-ParseKeeps r.parsers content_type p k.parsers (rw blank at e)
        | inr given ↦ k.parser_named to_name p (rw given at e)
      ]

  on_result-IsKept : (f : Fetcher W) (res : RetrievalResult) → Keeps (IsKept Q) (on_result r f res)
  unfolding on_result
  on_result-IsKept f res = Keeps-gets (preorder Q) _ _ λ item.
      Keeps-if (preorder Q) _ _ _ (saved-IsKept Q r k _ _)
        (go (parser_for_content_type r f.name res.content_type) refl)
    where
      go :
          (o : Option (Parser W))
          → parser_for_content_type r f.name res.content_type ≡ o
          → Keeps (IsKept Q) (elim o [
            | some p ↦ run_parser r p res
            | none ↦ do
              modify_item
                  (λ i. record i { last_content_hash = some res.content_hash; status = resolved })
              upsert r
              pure (result res)
          ])
      go none e = saved-IsKept Q r k _ _
      go (some p) e = run_parser-IsKept Q r k p res (chosen-ParseKeeps f.name res.content_type p e)

  exhausted-IsKept :
      (last_error : Option RetrievalError) → Keeps (IsKept Q) (exhausted r last_error)
  unfolding exhausted
  exhausted-IsKept last_error = saved-IsKept Q r k _ _

  cond-If : (b : Bool) (x y : Option (Fetcher W)) → If Q x → If Q y → If Q (if b then x else y)
  cond-If true x y h k = h
  cond-If false x y h k = k

  get_elem?-If : (fs : List (Fetcher W)) (i : ℕ) → All (FetchKeeps Q) fs → If Q (get_elem? fs i)
  get_elem?-If [] i h = tt
  get_elem?-If (f ∷ fs) zero (h, _) = h
  get_elem?-If (f ∷ fs) (suc i) (_, h) = get_elem?-If fs i h

  lookup-If : (name : String) → If Q (lookup name r.fetcher_by_name)
  lookup-If name = go (lookup name r.fetcher_by_name) refl
    where
      go : (o : Option (Fetcher W)) → lookup name r.fetcher_by_name ≡ o → If Q o
      go none e = tt
      go (some f) e = k.named name f e

  escalate-If : (f : Fetcher W) (e : ErrorType) (i : ℕ) → If Q (escalate r f e i)
  unfolding escalate next_fetcher_config_driven
  escalate-If f e i =
      cond-If (legacy_mode r) _ _
        (cond-If (error_in e escalatable_errors) _ _ (get_elem?-If r.fetchers i k.fetchers) tt)
        (go (escalation_target f.name (value e) r.tables.error_escalations))
    where
      go :
          (o : Option String)
          → If Q (elim o [ none ↦ none | some to_name ↦ lookup to_name r.fetcher_by_name ])
      go none = tt
      go (some to_name) = lookup-If to_name

  walk-IsKept :
      (fuel : ℕ) (url : String) (current : Option (Fetcher W)) (legacy_idx : ℕ)
      (last_error : Option RetrievalError) (visited : List ℕ)
      → If Q current
      → Keeps (IsKept Q) (walk r fuel url current legacy_idx last_error visited)
  unfolding walk
  walk-IsKept fuel url none legacy_idx last_error visited h = exhausted-IsKept last_error
  walk-IsKept zero url (some f) legacy_idx last_error visited h =
      Keeps-if (preorder Q) (contains visited f.object_id) _ _ (exhausted-IsKept last_error)
        (Keeps-exhaust (preorder Q))
  walk-IsKept (suc fuel) url (some f) legacy_idx last_error visited h =
      Keeps-if (preorder Q) (contains visited f.object_id) _ _ (exhausted-IsKept last_error) (
        Keeps-bind (preorder Q) _ _ (fetch_with_retry-IsKept Q r k f url h) (
          of_outcome (on_result-IsKept f) λ e.
            walk-IsKept fuel url (escalate r f e.error_type (legacy_idx + 1)) (legacy_idx + 1)
              (some e) (f.object_id ∷ visited) (escalate-If f e.error_type (legacy_idx + 1))))
    where
      of_outcome :
          {m : RetrievalResult → Action W Retrieval} {n : RetrievalError → Action W Retrieval}
          → ((res : RetrievalResult) → Keeps (IsKept Q) (m res))
          → ((e : RetrievalError) → Keeps (IsKept Q) (n e))
          → (o : Retrieval) → Keeps (IsKept Q) (elim o [ result res ↦ m res | error e ↦ n e ])
      of_outcome km kn (result res) = km res
      of_outcome km kn (error e) = kn e

  fetch_first-IsKept :
      (id : String) (sources : List String) → Keeps (IsKept Q) (fetch_first r id sources)
  unfolding fetch_first
  fetch_first-IsKept id [] = Keeps-raise (preorder Q) _
  fetch_first-IsKept id (url ∷ _) = go r.fetchers k.fetchers
    where
      go :
          (fs : List (Fetcher W))
          → All (FetchKeeps Q) fs
          → Keeps (IsKept Q) (elim fs [
            | [] ↦ pure (error no_fetchers)
            | f ∷ _ ↦ walk r (length r.fetchers) url (some f) 0 none []
          ])
      go [] h = Keeps-pure (preorder Q) _
      go (f ∷ _) (h, _) = walk-IsKept (length r.fetchers) url (some f) 0 none [] h

  -- Whatever the item is, and whether the run returns or raises.
  pub resolve_known_source-IsKept : (s : State W) → Q s.world → Q (resolve_known_source r s).1.world
  unfolding resolve_known_source known_source ◌>>=◌
  resolve_known_source-IsKept s q =
      under_lock-Keeps (preorder Q) (locks Q) s.item.id (known_source r) s
        (λ t same. (fetch_first-IsKept t.item.id t.item.current_sources).at t) q
