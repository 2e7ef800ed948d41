-- ===== src/Router/TrackA/World.antt =====
-- What the single steps of Track A keep of the world outside, if the adapters keep it.
use wyndpy.Base.{
  ℕ, zero, suc, ◌+◌, String, Option, none, some, ℕ_eq, string_eq, ◌≡◌, inl, inr, Option-cases, All,
  arith,
}
use wyndpy.Base.Dict.{lookup}
use wyndpy.Core.Results.{Bytes, RetrievalResult, Retrieval}
use wyndpy.Core.Item.{ResolvableItem}
use wyndpy.Core.Protocols.{Fetcher, Parser}
use wyndpy.Router.Setup.{Router}
use wyndpy.Router.Action.{◌>>◌, pure, State, fetch, sleep, parse, upsert, modify_item, call}
use wyndpy.Router.Keeps.{
  IsPreorder, Keeps, Keeps-pure, Keeps-bind, Keeps-if, Keeps-modify_item, KeepsLocks,
}
use wyndpy.Router.TrackA.{retry, fetch_with_retry, run_parser}

module _ {W : Type 0} (Q : W → Type 0) where
  -- A fetcher and a parser that keep `Q`.
  abbrev pub FetchKeeps : Fetcher W → Type 0
  FetchKeeps f = (url : String) (w : W) → Q w → Q (f.fetch url w).1

  abbrev pub ParseKeeps : Parser W → Type 0
  ParseKeeps p = (body : Bytes) (mime_type : String) (w : W) → Q w → Q (p.parse body mime_type w).1

  -- Whatever Track A of a router can call keeps `Q`.
  pub record AllKeep (r : Router W) : Type 0 where
    pub fetchers : All FetchKeeps r.fetchers
    pub named :
        (name : String) (f : Fetcher W) → lookup name r.fetcher_by_name ≡ some f → FetchKeeps f
    pub parsers : All ParseKeeps r.parsers
    pub parser_named :
        (name : String) (p : Parser W) → lookup name r.parser_by_name ≡ some p → ParseKeeps p
    pub saves : (i : ResolvableItem) (w : W) → Q w → Q (r.registry.upsert i w).1
    pub sleeps : (n : ℕ) (w : W) → Q w → Q (r.sleep n w).1

  abbrev pub IsKept : State W → State W → Type 0
  IsKept s t = Q s.world → Q t.world

  pub preorder : IsPreorder IsKept
  preorder = record { stay = λ s q. q; both = λ h k q. k (h q) }

  pub locks : KeepsLocks IsKept
  locks = record { relocks = λ l s q. q; acquires = λ l s q. q; releases = λ l s q. q }

  abbrev pub If : Option (Fetcher W) → Type 0
  If none = Unit
  If (some f) = FetchKeeps f

module _ {W : Type 0} (Q : W → Type 0) (r : Router W) (k : AllKeep Q r) where
  fetch-IsKept : (f : Fetcher W) (url : String) → FetchKeeps Q f → Keeps (IsKept Q) (fetch f url)
  unfolding fetch call
  fetch-IsKept f url h = record { at = λ s q. h url s.world q }

  sleep-IsKept : (n : ℕ) → Keeps (IsKept Q) (sleep r n)
  unfolding sleep call
  sleep-IsKept n = record { at = λ s q. k.sleeps n s.world q }

  upsert-IsKept : Keeps (IsKept Q) (upsert r)
  unfolding upsert call
  upsert-IsKept = record { at = λ s q. k.saves s.item s.world q }

  retry-IsKept :
      (f : Fetcher W) (url : String) (left attempt : ℕ) (outcome : Retrieval)
      → FetchKeeps Q f
      → Keeps (IsKept Q) (retry r f url left attempt outcome)
  unfolding retry
  retry-IsKept f url zero attempt outcome h = Keeps-pure (preorder Q) _
  retry-IsKept f url (suc left) attempt outcome h =
      Keeps-if (preorder Q) _ _ _ (Keeps-pure (preorder Q) _) (
        Keeps-bind (preorder Q) _ _ (sleep-IsKept _) λ _.
          Keeps-bind (preorder Q) _ _ (fetch-IsKept f url h)
            λ next. retry-IsKept f url left (attempt + 1) next h)

  pub fetch_with_retry-IsKept :
      (f : Fetcher W) (url : String) → FetchKeeps Q f → Keeps (IsKept Q) (fetch_with_retry r f url)
  unfolding fetch_with_retry
  fetch_with_retry-IsKept f url h =
      Keeps-bind (preorder Q) _ _ (fetch-IsKept f url h) λ o. retry-IsKept f url _ 0 o h

  pub run_parser-IsKept :
      (p : Parser W) (res : RetrievalResult)
      → ParseKeeps Q p
      → Keeps (IsKept Q) (run_parser r p res)
  unfolding run_parser parse call pure
  run_parser-IsKept p res h = elim (Option-cases res.raw_bytes) [
    | inl missing ↦ record { at = λ s q. ground (arith, missing, q) }
    | inr (body, there) ↦ record {
      at = λ s q. ground (arith, there, h body res.content_type s.world q);
    }
  ]

  pub saved-IsKept :
      (f : ResolvableItem → ResolvableItem) (o : Retrieval)
      → Keeps (IsKept Q) (do modify_item f; upsert r; pure o)
  saved-IsKept f o =
      Keeps-bind (preorder Q) _ _ (Keeps-modify_item f (λ s q. q))
        λ _. Keeps-bind (preorder Q) _ _ upsert-IsKept λ _. Keeps-pure (preorder Q) _
