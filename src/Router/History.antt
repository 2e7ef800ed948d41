-- ===== src/Router/History.antt =====
-- What a run has done, as the events that it adds to the history, and which items are the same
-- but for their status and hash.
use wyndpy.Base.{List, [], ◌∷◌, ◌++◌, append_assoc, All, All-append, ◌≡◌, refl, ◌∙◌, sym, ap}
use wyndpy.Core.Item.{ResolvableItem}
use wyndpy.Router.Action.{State, Event}

-- All but the status and the content hash.
pub record HasSameSources (i j : ResolvableItem) : Type 0 where
  pub same_id : j.id ≡ i.id
  pub same_hint : j.query_hint ≡ i.query_hint
  pub same_sources : j.current_sources ≡ i.current_sources
  pub same_metadata : j.metadata ≡ i.metadata
  pub same_candidates : j.candidate_sources ≡ i.candidate_sources
  pub same_seen : j.discovered_urls_seen ≡ i.discovered_urls_seen

-- The run from `s` to `t` did only what `P` allows.
pub record Did {W : Type 0} (P : Event → Type 0) (s t : State W) : Type 0 where
  pub events : List Event
  pub grown : t.history ≡ events ++ s.history
  pub allowed : All P events

module _ {W : Type 0} (P : Event → Type 0) where
  pub Did-stay : (s : State W) → Did P s s
  Did-stay s = record { events = []; grown = refl; allowed = tt }

  pub Did-both : {s t u : State W} → Did P s t → Did P t u → Did P s u
  Did-both {s} d d' = record {
    events = d'.events ++ d.events;
    grown =
        d'.grown
        ∙ ap (λ h. d'.events ++ h) d.grown
        ∙ sym (append_assoc d'.events d.events s.history);
    allowed = All-append P d'.events d.events d'.allowed d.allowed;
  }

  pub Did-one : (e : Event) (s t : State W) → P e → t.history ≡ e ∷ s.history → Did P s t
  Did-one e s t p h = record { events = e ∷ []; grown = h; allowed = (p, tt) }

  pub Did-none : (s t : State W) → t.history ≡ s.history → Did P s t
  Did-none s t h = record { events = []; grown = h; allowed = tt }
