-- ===== src/Router/Action.antt =====
-- What a method of the router does while it runs: it changes the item, the locks and the world
-- outside, and may raise. What was written before a raise stays written.
use wyndpy.Base.{ℕ, String, List, ◌∷◌, none, some, Bool, length, string_eq}
use wyndpy.Base.Dict.{Dict, lookup, insert}
use wyndpy.Base.Reply.{Exception, Reply, ok, raised}
use wyndpy.Core.Results.{Bytes, Retrieval, Candidate}
use wyndpy.Core.Item.{ResolvableItem}
use wyndpy.Core.Protocols.{Fetcher, Searcher, Parser}
use wyndpy.Router.Setup.{Router}

-- What a run has done, kept as a history that the source does not keep: calls of adapters, of the
-- registry and of `sleep`, and the lock's moves. The latest event comes first.
pub data Event : Type 0 where
  fetched : ℕ → String → Event
  slept : ℕ → Event
  parsed : String → Bytes → String → Event
  searched : String → String → ℕ → Event
  trust_asked : Candidate → Event
  upserted : ResolvableItem → Event
  acquired released : ℕ → Event

-- The item is the one that the caller passed in. A lock is a number, new for each item's id.
pub record State (W : Type 0) : Type 0 where
  pub item : ResolvableItem
  pub locks : Dict String ℕ
  pub world : W
  pub history : List Event

-- How a run ends. The last case stands for a loop that does not end.
pub data Exit {ℓ} (A : Type ℓ) : Type ℓ where
  returned : A → Exit A
  failed : Exception → Exit A
  out_of_fuel : Exit A

abbrev pub Action : Type 0 → Type 0 → Type 0
Action W A = State W → Exit A × State W

abbrev pub of_reply {ℓ} : {A : Type ℓ} → Reply A → Exit A
of_reply (ok a) = returned a
of_reply (raised e) = failed e

module _ {W A : Type 0} where
  unfoldable pub pure : A → Action W A
  pure a s = (returned a, s)

  unfoldable pub raise : Exception → Action W A
  raise e s = (failed e, s)

  unfoldable pub exhaust : Action W A
  exhaust s = (out_of_fuel, s)

  -- A call of something outside, noted in the history.
  unfoldable pub call : Event → (W → Reply A × W) → Action W A
  call event f s =
      let (reply, w) = f s.world in
      (of_reply reply, record s { world = w; history = event ∷ s.history })

  unfoldable pub gets : (State W → A) → Action W A
  gets f s = (returned (f s), s)

module _ {W A B : Type 0} where
  abbrev pub continue : Exit A → (A → Action W B) → Action W B
  continue (returned a) f s = f a s
  continue (failed e) f s = (failed e, s)
  continue out_of_fuel f s = (out_of_fuel, s)

  infixl 5 ◌>>=◌ ◌>>◌
  -- To open this is to open `pure`, `raise`, `exhaust` and `gets` too.
  unfoldable pub ◌>>=◌ : Action W A → (A → Action W B) → Action W B
  unfolding pure raise exhaust gets
  ◌>>=◌ m f s = let (x, s') = m s in continue x f s'

  abbrev pub ◌>>◌ : Action W A → Action W B → Action W B
  m >> k = m >>= λ _. k

module _ {W : Type 0} where
  unfoldable pub modify_item : (ResolvableItem → ResolvableItem) → Action W (Unit {0})
  modify_item f s = (returned tt, record s { item = f s.item })

  unfoldable pub note : Event → Action W (Unit {0})
  note event s = (returned tt, record s { history = event ∷ s.history })

  unfoldable pub fetch : Fetcher W → String → Action W Retrieval
  fetch f url = call (fetched f.object_id url) (f.fetch url)

  unfoldable pub sleep : Router W → ℕ → Action W (Unit {0})
  sleep r n = call (slept n) (r.sleep n)

  unfoldable pub parse : Parser W → Bytes → String → Action W Retrieval
  parse p body mime_type = call (parsed p.name body mime_type) (p.parse body mime_type)

  unfoldable pub search_for : Searcher W → String → ℕ → Action W (List Candidate)
  search_for f query n = call (searched f.name query n) (f.search query n)

  unfoldable pub ask_trust : Router W → Candidate → Action W Bool
  ask_trust r c = call (trust_asked c) (r.trust.is_trusted c)

  -- `await self.registry.upsert(item)`
  unfoldable pub upsert : Router W → Action W (Unit {0})
  upsert r s = call (upserted s.item) (r.registry.upsert s.item) s

-- `setdefault(item_id, asyncio.Lock())`
unfoldable pub setdefault_lock : String → Dict String ℕ → ℕ × Dict String ℕ
setdefault_lock id locks = elim (lookup id locks) [
  | some l ↦ (l, locks)
  | none ↦ (length locks, insert id (length locks) locks)
]

module _ {W : Type 0} where
  unfoldable pub lock_for : String → Action W ℕ
  unfolding setdefault_lock
  lock_for id s =
      let (l, locks) = setdefault_lock id s.locks in (returned l, record s { locks = locks })

  -- `async with lock:` The lock is given back however the body ends.
  unfoldable pub with_lock : {A : Type 0} → ℕ → Action W A → Action W A
  with_lock l m s =
      let (x, s') = m (record s { history = acquired l ∷ s.history }) in
      (x, record s' { history = released l ∷ s'.history })
