-- ===== src/Router/TrackA/Termination.antt =====
-- The loop of Track A ends: the visited set grows by an object of the router's list each round.
use wyndpy.Base.{
  ℕ, zero, suc, ◌+◌, ◌≤◌, ◌<◌, String, List, [], ◌∷◌, map, Bool, true, false, Option, none, some,
  contains, length, get_elem?, ℕ_eq, string_eq, ◌≡◌, ◌≢◌, refl, ap, inl, inr, Bool-cases,
  Option-cases, arith, if◌then◌else◌,
}
use wyndpy.Base.Dict.{Dict, lookup, insert, lookup-insert}
use wyndpy.Base.Reply.{Reply}
use wyndpy.Core.Results.{RetrievalError, error, ErrorType, value, error_in}
use wyndpy.Core.Escalation.{EscalationRule}
use wyndpy.Core.Protocols.{Fetcher, Searcher, Parser, TrustStrategy, Registry}
use wyndpy.Router.Setup.{
  Router, RouterConfig, escalation_target, escalatable_errors, new_router, fetchers_by_name,
  next_fetcher_config_driven,
}
use wyndpy.Router.Action.{State, out_of_fuel, pure, ◌>>=◌, lock_for, with_lock}
use wyndpy.Router.TrackA.{
  no_fetchers, legacy_mode, escalate, walk, fetch_first, known_source, resolve_known_source,
}
use wyndpy.Router.TrackA.Ends.{
  Ends, Ends-pure, Ends-raise, Ends-bind, Ends-retrieval, fetch_with_retry-Ends, exhausted-Ends,
  on_result-Ends,
}

-- The objects of `ids` that are not in `visited`.
abbrev pub unvisited : List ℕ → List ℕ → ℕ
unvisited visited [] = 0
unvisited visited (x ∷ ids) =
    let rest = unvisited visited ids in if contains visited x then rest else suc rest

pub unvisited-le-length : (visited ids : List ℕ) → unvisited visited ids ≤ length ids
unvisited-le-length visited [] = omega arith
unvisited-le-length visited (x ∷ ids) = ground (arith, unvisited-le-length visited ids)

unvisited-cons-le :
    (x : ℕ) (visited ids : List ℕ) → unvisited (x ∷ visited) ids ≤ unvisited visited ids
unvisited-cons-le x visited [] = omega arith
unvisited-cons-le x visited (y ∷ ids) = ground (arith, unvisited-cons-le x visited ids)

pub unvisited-cons-lt :
    (x : ℕ) (visited ids : List ℕ)
    → contains ids x ≡ true
    → contains visited x ≡ false
    → unvisited (x ∷ visited) ids < unvisited visited ids
unvisited-cons-lt x visited [] h k = cc
unvisited-cons-lt x visited (y ∷ ids) h k =
    ground (arith, unvisited-cons-le x visited ids, unvisited-cons-lt x visited ids)

-- Every fetcher that a rule can name is in the router's list.
abbrev pub IsWired : {W : Type 0} → Router W → Type 0
IsWired {W} r =
    (name : String) (f : Fetcher W)
    → lookup name r.fetcher_by_name ≡ some f
    → contains (map (λ g. g.object_id) r.fetchers) f.object_id ≡ true

module _ {W : Type 0} where
  abbrev pub ids : List (Fetcher W) → List ℕ
  ids fs = map (λ g. g.object_id) fs

  pub length-ids : (fs : List (Fetcher W)) → length (ids fs) ≡ length fs
  length-ids [] = refl
  length-ids (f ∷ fs) = ap suc (length-ids fs)

  -- What `current` is after an error.
  abbrev pub IsListed : List (Fetcher W) → Option (Fetcher W) → Type 0
  IsListed fs none = Unit
  IsListed fs (some f) = contains (ids fs) f.object_id ≡ true

  get_elem?-IsListed : (fs : List (Fetcher W)) (i : ℕ) → IsListed fs (get_elem? fs i)
  get_elem?-IsListed fs i = elim (Option-cases (get_elem? fs i)) [
    | inl e ↦ rw e tt
    | inr (f, e) ↦ rw e (listed fs i f e)
  ]
    where
      listed :
          (fs : List (Fetcher W)) (i : ℕ) (f : Fetcher W)
          → get_elem? fs i ≡ some f
          → contains (ids fs) f.object_id ≡ true
      listed [] i f e = cc
      listed (g ∷ fs) zero f e = ground arith
      listed (g ∷ fs) (suc i) f e = ground (arith, listed fs i f e)

  IsListed-if :
      (fs : List (Fetcher W)) (b : Bool) (o o' : Option (Fetcher W))
      → IsListed fs o
      → IsListed fs o'
      → IsListed fs (if b then o else o')
  IsListed-if fs true o o' h k = h
  IsListed-if fs false o o' h k = k

  next_fetcher_config_driven-IsListed :
      (r : Router W) (name : String) (t : ErrorType)
      → IsWired r
      → IsListed r.fetchers (next_fetcher_config_driven r name t)
  unfolding next_fetcher_config_driven
  next_fetcher_config_driven-IsListed r name t wired =
      go (escalation_target name (value t) r.tables.error_escalations)
    where
      found : (to_name : String) → IsListed r.fetchers (lookup to_name r.fetcher_by_name)
      found to_name = elim (Option-cases (lookup to_name r.fetcher_by_name)) [
        | inl e ↦ rw e tt
        | inr (f, e) ↦ rw e (wired to_name f e)
      ]

      go :
          (o : Option String)
          → IsListed r.fetchers
              (elim o [ none ↦ none | some to_name ↦ lookup to_name r.fetcher_by_name ])
      go none = tt
      go (some to_name) = found to_name

  pub escalate-IsListed :
      (r : Router W) (f : Fetcher W) (t : ErrorType) (i : ℕ)
      → IsWired r
      → IsListed r.fetchers (escalate r f t i)
  unfolding escalate
  escalate-IsListed r f t i wired =
      IsListed-if r.fetchers (legacy_mode r) _ _
        (IsListed-if r.fetchers (error_in t escalatable_errors) _ _
          (get_elem?-IsListed r.fetchers i) tt)
        (next_fetcher_config_driven-IsListed r f.name t wired)

  module _ (r : Router W) (wired : IsWired r) where
    walk-Ends :
        (url : String) (fuel : ℕ) (current : Option (Fetcher W)) (legacy_idx : ℕ)
        (last_error : Option RetrievalError) (visited : List ℕ)
        → IsListed r.fetchers current
        → unvisited visited (ids r.fetchers) ≤ fuel
        → Ends (walk r fuel url current legacy_idx last_error visited)
    unfolding walk
    walk-Ends url fuel none legacy_idx last_error visited h k = exhausted-Ends r last_error
    walk-Ends url zero (some f) legacy_idx last_error visited h k =
        elim (Bool-cases (contains visited f.object_id)) [
          | inl old ↦ rw old (exhausted-Ends r last_error)
          | inr new ↦
              absurd (omega (arith, unvisited-cons-lt f.object_id visited (ids r.fetchers) h new))
        ]
    walk-Ends url (suc fuel) (some f) legacy_idx last_error visited h k =
        elim (Bool-cases (contains visited f.object_id)) [
          | inl old ↦ rw old (exhausted-Ends r last_error)
          | inr new ↦ rw new (
              Ends-bind _ _ (fetch_with_retry-Ends r f url) λ o.
                Ends-retrieval o _ _ (on_result-Ends r f) λ e.
                  walk-Ends url fuel (escalate r f e.error_type (legacy_idx + 1)) (legacy_idx + 1)
                    (some e) (f.object_id ∷ visited)
                    (escalate-IsListed r f e.error_type (legacy_idx + 1) wired)
                    (omega (arith, unvisited-cons-lt f.object_id visited (ids r.fetchers) h new)))
        ]

    fetch_first-Ends : (id : String) (sources : List String) → Ends (fetch_first r id sources)
    unfolding fetch_first
    fetch_first-Ends id [] = Ends-raise _
    fetch_first-Ends id (url ∷ _) = go r.fetchers refl
      where
        go :
            (fs : List (Fetcher W))
            → r.fetchers ≡ fs
            → Ends {W = W} (elim fs [
              | [] ↦ pure (error no_fetchers)
              | f ∷ _ ↦ walk r (length r.fetchers) url (some f) 0 none []
            ])
        go [] e = Ends-pure _
        go (f ∷ fs) e =
            walk-Ends url (length r.fetchers) (some f) 0 none [] (rw e (ground arith))
              (omega (arith, unvisited-le-length [] (ids r.fetchers), length-ids r.fetchers))

    pub resolve_known_source-ends : (s : State W) → (resolve_known_source r s).0 ≢ out_of_fuel
    unfolding resolve_known_source known_source ◌>>=◌ lock_for with_lock
    resolve_known_source-ends s = (fetch_first-Ends s.item.id s.item.current_sources).at _

  -- What the loop of `__init__` has put into the table by name.
  fetchers_by_name-listed :
      (fs : List (Fetcher W)) (d : Dict String (Fetcher W)) (all : List ℕ)
      → ((f : Fetcher W) → contains (ids fs) f.object_id ≡ true → contains all f.object_id ≡ true)
      → ((name : String) (f : Fetcher W) → lookup name d ≡ some f → contains all f.object_id ≡ true)
      → (name : String) (f : Fetcher W) → lookup name (fetchers_by_name fs d) ≡ some f
      → contains all f.object_id ≡ true
  unfolding fetchers_by_name
  fetchers_by_name-listed [] d all h k = k
  fetchers_by_name-listed (g ∷ fs) d all h k =
      fetchers_by_name-listed fs (insert g.name g d) all (λ f m. h f (ground arith))
        λ name f e. ground (arith, lookup-insert name g.name g d, k name f, h g, h f)

  pub new_router-IsWired :
      (fs : List (Fetcher W)) (searchers : List (Searcher W)) (parsers : List (Parser W))
      (trust : TrustStrategy W) (registry : Registry W) (config : Option RouterConfig)
      (rules : Option (List EscalationRule)) (pause : ℕ → W → Reply (Unit {0}) × W)
      → IsWired (new_router fs searchers parsers trust registry config rules pause)
  unfolding new_router lookup
  new_router-IsWired fs searchers parsers trust registry config rules pause =
      fetchers_by_name-listed fs [] (ids fs) (λ f m. m) λ name f e. absurd (not_in_nil name f e)
    where
      not_in_nil : (name : String) (f : Fetcher W) → lookup name [] ≡ some f → ⊥
      not_in_nil name f e = cc

-- `resolve_known_source` of a router that the constructor built always ends: its loop never runs
-- out of as many rounds as there are fetchers, whatever the rules, the adapters and the item are.
pub new_router-resolve_known_source-ends :
    {W : Type 0} (fs : List (Fetcher W)) (searchers : List (Searcher W)) (parsers : List (Parser W))
    (trust : TrustStrategy W) (registry : Registry W) (config : Option RouterConfig)
    (rules : Option (List EscalationRule)) (pause : ℕ → W → Reply (Unit {0}) × W) (s : State W)
    → (resolve_known_source (new_router fs searchers parsers trust registry config rules pause) s).0
      ≢ out_of_fuel
new_router-resolve_known_source-ends fs searchers parsers trust registry config rules pause s =
    resolve_known_source-ends _
      (new_router-IsWired fs searchers parsers trust registry config rules pause) s
