-- ===== src/Router/Keeps.antt =====
-- Relations between the state before an action and the state after it, whether it returns or
-- raises, with one rule for each way to build an action.
use wyndpy.Base.{
  ℕ, String, Bool, true, false, ◌∷◌, Option, none, some, if◌then◌else◌, ◌≡◌, refl, ap,
}
use wyndpy.Base.Dict.{Dict}
use wyndpy.Base.Reply.{Exception, Reply}
use wyndpy.Core.Item.{ResolvableItem}
use wyndpy.Router.Setup.{Router}
use wyndpy.Router.Action.{
  State, Action, Event, upserted, Exit, returned, failed, out_of_fuel, continue, pure, raise,
  exhaust, gets, ◌>>=◌, ◌>>◌, call, modify_item, upsert, lock_for, setdefault_lock, with_lock,
  acquired, released,
}

module _ {W : Type 0} where
  -- The state after a call.
  abbrev pub after : Event → State W → W → State W
  after e s w = record s { world = w; history = e ∷ s.history }

  -- The state after the item has become `i` and was saved.
  abbrev pub changed : ResolvableItem → State W → W → State W
  changed i s w = record s { item = i; world = w; history = upserted i ∷ s.history }

  pub record IsPreorder (R : State W → State W → Type 0) : Type 0 where
    pub stay : (s : State W) → R s s
    pub both : {s t u : State W} → R s t → R t u → R s u

  pub record Keeps {A : Type 0} (R : State W → State W → Type 0) (m : Action W A) : Type 0 where
    pub at : (s : State W) → R s (m s).1

module _ {W : Type 0} {R : State W → State W → Type 0} (p : IsPreorder R) where
  pub Keeps-pure : {A : Type 0} (a : A) → Keeps R (pure a)
  unfolding pure
  Keeps-pure a = record { at = p.stay }

  pub Keeps-raise : {A : Type 0} (e : Exception) → Keeps R (raise {A = A} e)
  unfolding raise
  Keeps-raise e = record { at = p.stay }

  pub Keeps-exhaust : {A : Type 0} → Keeps R (exhaust {A = A})
  unfolding exhaust
  Keeps-exhaust = record { at = p.stay }

  pub Keeps-continue :
      {A B : Type 0} (x : Exit A) (f : A → Action W B)
      → ((a : A) → Keeps R (f a))
      → Keeps R (continue x f)
  Keeps-continue (returned a) f k = k a
  Keeps-continue (failed e) f k = record { at = p.stay }
  Keeps-continue out_of_fuel f k = record { at = p.stay }

  pub Keeps-bind :
      {A B : Type 0} (m : Action W A) (f : A → Action W B)
      → Keeps R m
      → ((a : A) → Keeps R (f a))
      → Keeps R (m >>= f)
  unfolding ◌>>=◌
  Keeps-bind m f km kf = record {
    at = λ s. p.both (km.at s) ((Keeps-continue (m s).0 f kf).at (m s).1);
  }

  -- The rest of a block may use what was read.
  pub Keeps-gets :
      {A B : Type 0} (g : State W → A) (f : A → Action W B)
      → ((a : A) → Keeps R (f a))
      → Keeps R (gets g >>= f)
  unfolding ◌>>=◌
  Keeps-gets g f kf = record { at = λ s. (kf (g s)).at s }

  pub Keeps-if :
      {A : Type 0} (b : Bool) (m n : Action W A)
      → Keeps R m
      → Keeps R n
      → Keeps R (if b then m else n)
  Keeps-if true m n km kn = km
  Keeps-if false m n km kn = kn

  pub Keeps-option :
      {A B : Type 0} (o : Option B) (m : Action W A) (f : B → Action W A)
      → Keeps R m
      → ((b : B) → Keeps R (f b))
      → Keeps R (elim o [ none ↦ m | some b ↦ f b ])
  Keeps-option none m f km kf = km
  Keeps-option (some b) m f km kf = kf b

-- A call keeps what its event keeps.
module _ {W : Type 0} {R : State W → State W → Type 0} where
  pub Keeps-call :
      {A : Type 0} (e : Event) (f : W → Reply A × W)
      → ((s : State W) (w : W) → R s (record s { world = w; history = e ∷ s.history }))
      → Keeps R (call e f)
  unfolding call
  Keeps-call e f h = record { at = λ s. h s (f s.world).1 }

  pub Keeps-upsert :
      (r : Router W)
      → ((s : State W) (w : W)
          → R s (record s { world = w; history = upserted s.item ∷ s.history }))
      → Keeps R (upsert r)
  unfolding upsert call
  Keeps-upsert r h = record { at = λ s. h s (r.registry.upsert s.item s.world).1 }

  pub Keeps-modify_item :
      (f : ResolvableItem → ResolvableItem)
      → ((s : State W) → R s (record s { item = f s.item }))
      → Keeps R (modify_item f)
  unfolding modify_item
  Keeps-modify_item f h = record { at = h }

module _ {W : Type 0} {R : State W → State W → Type 0} (p : IsPreorder R) where
  -- A change of the item that is saved at once is one step.
  pub Keeps-change :
      {A : Type 0} (r : Router W) (f : ResolvableItem → ResolvableItem) (rest : Action W A)
      → ((s : State W) (w : W)
          → R s
              (record s { item = f s.item; world = w; history = upserted (f s.item) ∷ s.history }))
      → Keeps R rest
      → Keeps R (do modify_item f; upsert r; rest)
  unfolding modify_item upsert call ◌>>=◌
  Keeps-change r f rest h k = record {
    at = λ s. p.both (h s _) ((Keeps-continue p _ _ (λ _. k)).at _);
  }

module _ {W : Type 0} where
  pub record KeepsLocks (R : State W → State W → Type 0) : Type 0 where
    pub relocks : (locks : Dict String ℕ) (s : State W) → R s (record s { locks = locks })
    pub acquires : (l : ℕ) (s : State W) → R s (record s { history = acquired l ∷ s.history })
    pub releases : (l : ℕ) (s : State W) → R s (record s { history = released l ∷ s.history })

module _ {W : Type 0} {R : State W → State W → Type 0} (p : IsPreorder R) (k : KeepsLocks R) where
  -- A method that runs a body under the item's lock keeps what the body keeps from the states
  -- that hold the same item.
  pub under_lock-Keeps :
      {A : Type 0} (id : String) (m : Action W A) (s : State W)
      → ((t : State W) → t.item ≡ s.item → R t (m t).1)
      → R s ((lock_for id >>= λ l. with_lock l m) s).1
  unfolding lock_for with_lock ◌>>=◌
  under_lock-Keeps id m s h =
      let found = setdefault_lock id s.locks in
      let t : State W = record s { locks = found.1; history = acquired found.0 ∷ s.history } in
      p.both (k.relocks found.1 s)
        (p.both (k.acquires found.0 _) (p.both (h t refl) (k.releases found.0 _)))

-- A sequence whose first part returns goes on with the rest.
pub bind-returned :
    {W A B : Type 0} (m : Action W A) (k : A → Action W B) (s : State W) (a : A) (t : State W)
    → m s ≡ (returned a, t)
    → (m >>= k) s ≡ k a t
unfolding ◌>>=◌
bind-returned m k s a t e = ap (λ q. continue q.0 k q.1) e

-- A sequence that returns has returned from its first part.
pub bind-eq-returned :
    {W A B : Type 0} (m : Action W A) (f : A → Action W B) (s : State W) {b : B} {t : State W}
    → (m >>= f) s ≡ (returned b, t)
    → (a : A) × (u : State W) × (m s ≡ (returned a, u)) × (f a u ≡ (returned b, t))
unfolding ◌>>=◌
bind-eq-returned {W} {A} {B} m f s {b} {t} e = go (m s).0 (m s).1 refl e
  where
    go :
        (x : Exit A) (u : State W)
        → m s ≡ (x, u)
        → continue x f u ≡ (returned b, t)
        → (a : A) × (v : State W) × (m s ≡ (returned a, v)) × (f a v ≡ (returned b, t))
    go (returned a) u same e = (a, u, same, e)
    go (failed x) u same e = cc
    go out_of_fuel u same e = cc

pub pure-eq-returned :
    {W A : Type 0} {a b : A} {s t : State W} → pure a s ≡ (returned b, t) → (a ≡ b) × (s ≡ t)
unfolding pure
pure-eq-returned {W} {A} {a} {b} e = (inject λ k. (e k).0, λ k. (e k).1)
  where
    inject : ◌≡◌ {A = Exit A} (returned a) (returned b) → a ≡ b
    inject h = cc
