-- ===== src/Router/TrackA/Outcomes.antt =====
-- How one round of `resolve_known_source` can return, and what it leaves behind.
use wyndpy.Base.{
  String, List, ◌∷◌, Bool, true, false, Option, none, some, ℕ_eq, string_eq, ◌≡◌, refl, sym, ap,
  ◌∙◌, inl, inr, ◌⊎◌, ℕ, ◌+◌, contains, ◌==◌, ==_iff, subst, Option-cases, arith, if◌then◌else◌,
}
use wyndpy.Base.Reply.{ok}
use wyndpy.Core.Results.{
  Bytes, RetrievalResult, RetrievalError, Retrieval, result, error, unsupported_format,
}
use wyndpy.Core.Item.{ResolvableItem, resolved, fetch_exhausted}
use wyndpy.Core.Protocols.{Fetcher, Parser}
use wyndpy.Router.Setup.{Router, parser_for_content_type}
use wyndpy.Router.Action.{
  State, parsed, upserted, returned, pure, exhaust, ◌>>=◌, ◌>>◌, call, modify_item, upsert, parse,
}
use wyndpy.Router.TrackA.{
  missing_bytes, is_unchanged, fetch_with_retry, run_parser, on_result, exhausted, escalate,
}
use wyndpy.Router.TrackA.Frame.{fetch_with_retry-Keeps}

-- What the fetches of a run come to: a result of a fetcher, or the last of their errors.
pub data Verdict (W : Type 0) : Type 0 where
  settled_by : Fetcher W → RetrievalResult → Verdict W
  all_failed : RetrievalError → Verdict W

-- The fetchers that are tried, in order, each once, from a state to the one after the last fetch. An
-- error leads on to where it escalates to, until that is nowhere or a fetcher that was tried before.
pub data Tries {W : Type 0} (r : Router W) (url : String)
    : Option (Fetcher W)
      → ℕ
      → Option RetrievalError
      → List ℕ
      → State W
      → Verdict W
      → State W
      → Type 0 where
  nowhere :
      {i : ℕ} {e : RetrievalError} {visited : List ℕ} {s : State W}
      → Tries r url none i (some e) visited s (all_failed e) s
  again :
      {f : Fetcher W} {i : ℕ} {e : RetrievalError} {visited : List ℕ} {s : State W}
      → contains visited f.object_id ≡ true
      → Tries r url (some f) i (some e) visited s (all_failed e) s
  succeeds :
      {f : Fetcher W} {i : ℕ} {e : Option RetrievalError} {visited : List ℕ} {s u : State W}
      {res : RetrievalResult}
      → contains visited f.object_id ≡ false
      → fetch_with_retry r f url s ≡ (returned (result res), u)
      → Tries r url (some f) i e visited s (settled_by f res) u
  leads_on :
      {f : Fetcher W} {i : ℕ} {e : Option RetrievalError} {visited : List ℕ} {s u v : State W}
      {x : RetrievalError} {q : Verdict W}
      → contains visited f.object_id ≡ false
      → fetch_with_retry r f url s ≡ (returned (error x), u)
      → Tries r url
          (escalate r f x.error_type (i + 1))
          (i + 1)
          (some x)
          (f.object_id ∷ visited)
          u
          q
          v
      → Tries r url (some f) i e visited s q v

-- What is returned and left behind, from the state `v` after the last fetch.
pub data Ending {W : Type 0} (r : Router W) (v : State W)
    : Verdict W → Retrieval → State W → Type 0 where
  -- The result is unchanged or no parser is chosen for it: it is returned itself, and the item,
  -- resolved and with its hash, is saved.
  kept :
      {f : Fetcher W} {res : RetrievalResult} {t : State W}
      → (v.item.last_content_hash ≡ some res.content_hash)
        ⊎ (parser_for_content_type r f.name res.content_type ≡ none)
      → t.item ≡ record v.item { status = resolved; last_content_hash = some res.content_hash }
      → t.history ≡ upserted t.item ∷ v.history
      → Ending r v (settled_by f res) (result res) t
  -- The result is new and the answer is what a parser makes of its bytes; the item is as it was, and
  -- nothing is saved.
  handed_over :
      {f : Fetcher W} {res : RetrievalResult} {o : Retrieval} {t : State W} (p : Parser W)
      (body : Bytes)
      → ¬ (v.item.last_content_hash ≡ some res.content_hash)
      → parser_for_content_type r f.name res.content_type ≡ some p
      → res.raw_bytes ≡ some body
      → p.parse body res.content_type v.world ≡ (ok o, t.world)
      → t.item ≡ v.item
      → t.history ≡ parsed p.name body res.content_type ∷ v.history
      → Ending r v (settled_by f res) o t
  -- A parser was chosen for a new result that has no bytes; all is as it was.
  no_bytes :
      {f : Fetcher W} {res : RetrievalResult} {e : RetrievalError} {t : State W} (p : Parser W)
      → ¬ (v.item.last_content_hash ≡ some res.content_hash)
      → parser_for_content_type r f.name res.content_type ≡ some p
      → res.raw_bytes ≡ none
      → e.error_type ≡ unsupported_format
      → e.provider_used ≡ p.name
      → t ≡ v
      → Ending r v (settled_by f res) (error e) t
  -- Every fetcher that was tried has failed: the last error is returned, and the item, marked so, is
  -- saved.
  gave_up :
      {e : RetrievalError} {t : State W}
      → t.item ≡ record v.item { status = fetch_exhausted }
      → t.history ≡ upserted t.item ∷ v.history
      → Ending r v (all_failed e) (error e) t

unchanged_hash :
    (res : RetrievalResult) (i : ResolvableItem)
    → is_unchanged res i ≡ true
    → i.last_content_hash ≡ some res.content_hash
unchanged_hash res i h = ground arith

changed_hash :
    (res : RetrievalResult) (i : ResolvableItem)
    → is_unchanged res i ≡ false
    → ¬ (i.last_content_hash ≡ some res.content_hash)
changed_hash res i h same =
    let equal : (res.content_hash == res.content_hash) ≡ true =
      (==_iff res.content_hash res.content_hash).1 refl in
    ground (arith, h, same, equal)

module _ {W : Type 0} (r : Router W) where
  HasSameItem : State W → State W → Type 0
  HasSameItem s t = t.item ≡ s.item

  pub fetch_with_retry-item :
      (f : Fetcher W) (url : String) (s : State W) → (fetch_with_retry r f url s).1.item ≡ s.item
  unfolding HasSameItem
  fetch_with_retry-item f url s =
      (fetch_with_retry-Keeps r {url = url} {R = HasSameItem}
          (record {
            preorder = record { stay = λ s. refl; both = λ p q. q ∙ p };
            fetches = λ id s w. refl;
            sleeps = λ n s w. refl;
          })
          f).at
        s

  pub not_exhaust : (s : State W) {o : Retrieval} {t : State W} → ¬ (exhaust s ≡ (returned o, t))
  unfolding exhaust
  not_exhaust s e = ground arith

  -- The saved item, where the two lines before `return` have gone through.
  saved_lem :
      (f : ResolvableItem → ResolvableItem) (o : Retrieval) (s : State W) {o' : Retrieval}
      {t : State W}
      → (do modify_item f; upsert r; pure o) s ≡ (returned o', t)
      → (o ≡ o') × (t.item ≡ f s.item) × (t.history ≡ upserted (f s.item) ∷ s.history)
  unfolding ◌>>=◌ modify_item upsert call
  saved_lem f o s e = ground arith

  pub exhausted-Ending :
      (x : RetrievalError) (s : State W) {o : Retrieval} {t : State W}
      → exhausted r (some x) s ≡ (returned o, t)
      → Ending r s (all_failed x) o t
  unfolding exhausted
  exhausted-Ending x s {t} e =
      let (same, item, history) = saved_lem _ _ s e in
      subst (λ o. Ending r s (all_failed x) o t) same
        (gave_up item (history ∙ ap (λ i. upserted i ∷ s.history) (sym item)))

  run_parser-Ending :
      (f : Fetcher W) (p : Parser W) (res : RetrievalResult) (s : State W) {o : Retrieval}
      {t : State W}
      → ¬ (s.item.last_content_hash ≡ some res.content_hash)
      → parser_for_content_type r f.name res.content_type ≡ some p
      → run_parser r p res s ≡ (returned o, t)
      → Ending r s (settled_by f res) o t
  unfolding run_parser parse call pure
  run_parser-Ending f p res s {o} {t} new c e = elim (Option-cases res.raw_bytes) [
    | inl missing ↦
        let same : error (missing_bytes p.name) ≡ o = ground arith in
        subst (λ x. Ending r s (settled_by f res) x t) same
          (no_bytes p new c missing refl refl (ground arith))
    | inr (body, there) ↦
        handed_over p body new c there (ground arith) (ground arith) (ground arith)
  ]

  pub on_result-Ending :
      (f : Fetcher W) (res : RetrievalResult) (s : State W) {o : Retrieval} {t : State W}
      → on_result r f res s ≡ (returned o, t)
      → Ending r s (settled_by f res) o t
  unfolding on_result ◌>>=◌
  on_result-Ending f res s {o} {t} e =
      split (is_unchanged res s.item) (parser_for_content_type r f.name res.content_type) refl refl
        e
    where
      keep :
          (s.item.last_content_hash ≡ some res.content_hash)
            ⊎ (parser_for_content_type r f.name res.content_type ≡ none)
          → t.item ≡ record s.item { status = resolved; last_content_hash = some res.content_hash }
          → t.history ≡ upserted t.item ∷ s.history
          → result res ≡ o
          → Ending r s (settled_by f res) o t
      keep why item history same =
          subst (λ x. Ending r s (settled_by f res) x t) same (kept why item history)

      split :
          (b : Bool) (q : Option (Parser W))
          → is_unchanged res s.item ≡ b
          → parser_for_content_type r f.name res.content_type ≡ q
          → (if b
                then (do
                  modify_item (λ i. record i { status = resolved })
                  upsert r
                  pure (result res))
                else elim q [
                  | some p ↦ run_parser r p res
                  | none ↦ do
                    modify_item (λ i. record i {
                      last_content_hash = some res.content_hash;
                      status = resolved;
                    })
                    upsert r
                    pure (result res)
                ])
              s
            ≡ (returned o, t)
          → Ending r s (settled_by f res) o t
      split true q u c e =
          let (same, item, history) = saved_lem _ _ s e in
          keep (inl (unchanged_hash res s.item u))
            (item ∙ λ k. record s.item {
              status = resolved;
              last_content_hash = unchanged_hash res s.item u k;
            })
            (history ∙ ap (λ i. upserted i ∷ s.history) (sym item)) same
      split false none u c e =
          let (same, item, history) = saved_lem _ _ s e in
          keep (inr c) item (history ∙ ap (λ i. upserted i ∷ s.history) (sym item)) same
      split false (some p) u c e = run_parser-Ending f p res s (changed_hash res s.item u) c e
