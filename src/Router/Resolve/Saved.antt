-- ===== src/Router/Resolve/Saved.antt =====
-- What the registry was given last: no change of an item is left unsaved.
use wyndpy.Base.{List, [], ◌∷◌, ◌++◌, Option, none, some, All, ◌≡◌, refl, sym, ap, ◌∙◌}
use wyndpy.Core.Item.{ResolvableItem}
use wyndpy.Router.Setup.{Router}
use wyndpy.Router.Action.{
  State, Event, fetched, slept, parsed, searched, trust_asked, upserted, acquired, released,
}
use wyndpy.Router.Keeps.{after, IsPreorder, KeepsLocks}
use wyndpy.Router.History.{Did, Did-stay, Did-both, Did-one, Did-none}
use wyndpy.Router.TrackA.{resolve_known_source}
use wyndpy.Router.TrackA.Frame.{resolve_known_source-KeepsChanges}
use wyndpy.Router.TrackB.{discover_source}
use wyndpy.Router.TrackB.Frame.{discover_source-KeepsChanges}
use wyndpy.Router.Resolve.{resolve}
use wyndpy.Router.Resolve.Frame.{resolve-Keeps}

-- The item that the registry's `upsert` was given last, as it was then.
abbrev pub last_saved : List Event → Option ResolvableItem
last_saved [] = none
last_saved (upserted i ∷ h) = some i
last_saved (_ ∷ h) = last_saved h

abbrev pub IsNoSave : Event → Type 0
IsNoSave (upserted _) = ⊥
IsNoSave _ = Unit

last_saved-append :
    (events h : List Event) → All IsNoSave events → last_saved (events ++ h) ≡ last_saved h
last_saved-append [] h p = refl
last_saved-append (fetched _ _ ∷ events) h (_, p) = last_saved-append events h p
last_saved-append (slept _ ∷ events) h (_, p) = last_saved-append events h p
last_saved-append (parsed _ _ _ ∷ events) h (_, p) = last_saved-append events h p
last_saved-append (searched _ _ _ ∷ events) h (_, p) = last_saved-append events h p
last_saved-append (trust_asked _ ∷ events) h (_, p) = last_saved-append events h p
last_saved-append (acquired _ ∷ events) h (_, p) = last_saved-append events h p
last_saved-append (released _ ∷ events) h (_, p) = last_saved-append events h p
last_saved-append (upserted _ ∷ events) h (p, _) = absurd p

module _ {W : Type 0} where
  -- The item is as it was and nothing was saved, or what was saved last is the item as it is.
  pub data IsSaved (s t : State W) : Type 0 where
    untouched : t.item ≡ s.item → Did IsNoSave s t → IsSaved s t
    saved : last_saved t.history ≡ some t.item → IsSaved s t

  IsSaved-both : {s t u : State W} → IsSaved s t → IsSaved t u → IsSaved s u
  IsSaved-both (untouched same d) (untouched same' d') =
      untouched (same' ∙ same) (Did-both IsNoSave d d')
  IsSaved-both {s} {t} {u} (saved h) (untouched same d) = saved (
      ap last_saved d.grown
      ∙ last_saved-append d.events t.history d.allowed
      ∙ h
      ∙ ap some (sym same))
  IsSaved-both x (saved h) = saved h

  IsSaved-IsPreorder : IsPreorder IsSaved
  IsSaved-IsPreorder = record {
    stay = λ s. untouched refl (Did-stay IsNoSave s);
    both = IsSaved-both;
  }

  -- A call that saves nothing.
  called : (e : Event) (s : State W) (w : W) → IsNoSave e → IsSaved s (after e s w)
  called e s w h = untouched refl (Did-one IsNoSave e s _ h refl)

  IsSaved-KeepsLocks : KeepsLocks IsSaved
  IsSaved-KeepsLocks = record {
    relocks = λ locks s. untouched refl (Did-none IsNoSave s _ refl);
    acquires = λ l s. called (acquired l) s s.world tt;
    releases = λ l s. called (released l) s s.world tt;
  }

  known-IsSaved : (r : Router W) (s : State W) → IsSaved s (resolve_known_source r s).1
  known-IsSaved r = resolve_known_source-KeepsChanges r IsSaved-IsPreorder IsSaved-KeepsLocks λ url.
      record {
        fetching = record {
          preorder = IsSaved-IsPreorder;
          fetches = λ id s w. called (fetched id url) s w tt;
          sleeps = λ n s w. called (slept n) s w tt;
        };
        parses = λ name body mime s w. called (parsed name body mime) s w tt;
        marks = λ status s w. saved refl;
        rehashes = λ hash s w. saved refl;
      }

  discovery-IsSaved : (r : Router W) (s : State W) → IsSaved s (discover_source r s).1
  discovery-IsSaved r =
      discover_source-KeepsChanges r
        (record {
          preorder = IsSaved-IsPreorder;
          searches = λ name query n s w. called (searched name query n) s w tt;
          asks = λ c s w. called (trust_asked c) s w tt;
          merges = λ c s w. saved refl;
          marks = λ s w. saved refl;
        })
        IsSaved-KeepsLocks

  -- However a run of `resolve_known_source`, of `discover_source` or of `resolve` ends, by an
  -- exception of an adapter or of the registry also, it leaves no change of the item unsaved: the
  -- item is as it was and nothing was passed to `upsert`, or what was passed to it last is the item
  -- as it is.
  pub resolve-IsSaved :
      (r : Router W) (s : State W)
      → IsSaved s (resolve_known_source r s).1
        × IsSaved s (discover_source r s).1
        × IsSaved s (resolve r s).1
  resolve-IsSaved r s = (
    known-IsSaved r s,
    discovery-IsSaved r s,
    (resolve-Keeps r IsSaved-IsPreorder (record { at = known-IsSaved r })
          (record { at = discovery-IsSaved r })).at
        s,
  )
