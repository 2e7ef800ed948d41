-- ===== src/Factory/Classes/Given.antt =====
-- The allowlist that an adapter gets from the policy.
use wyndpy.Base.{
  String, List, [], ◌∷◌, Bool, true, Option, none, some, ◌==◌, string_eq, ◌≡◌, refl, sym, ap, ◌∙◌,
  inl, inr, Bool-cases, arith,
}
use wyndpy.Base.Dict.{lookup, insert}
use wyndpy.Base.Reply.{Reply, ok, bind-ok, ok_injective, Reply-cases}
use wyndpy.Base.Value.{Value, array, texts}
use wyndpy.Core.Discovery.{EntryPoint, load_adapter_class}
use wyndpy.Fetch.Httpx.{HttpxFetcher}
use wyndpy.Fetch.Firecrawl.{FirecrawlFetcher}
use wyndpy.Factory.Allow.{normalize_allow}
use wyndpy.Factory.Construct.{
  Kwargs, Credentials, AdapterClass, kwargs_for, with_allow, takes_allowlist, fetch_kwargs,
  search_kwargs, construct_class, construct,
}
use wyndpy.Factory.Construct.Checked.{refuse_type_error-ok}
use wyndpy.Factory.Classes.{
  need_api_key, texts_of, domains_arg, bind_kwargs, set_httpx, httpx_init, httpx_class,
  set_firecrawl, firecrawl_init, firecrawl_class,
}

texts_of-texts : (ss : List String) → texts_of (texts ss) ≡ some ss
unfolding texts_of texts
texts_of-texts [] = refl
texts_of-texts (s ∷ ss) = ground (arith, texts_of-texts ss)

domains_arg-texts : (ss : List String) → domains_arg (array (texts ss)) ≡ ok ss
unfolding domains_arg
domains_arg-texts ss = ground (arith, texts_of-texts ss)

module _ {A : Type 0} (set : String → Value → A → Reply A) (domains_in : A → List String)
    (key : String) where
  -- `set` keeps the domains that stand under `key`.
  abbrev Sets : Type 0
  Sets = (ds : List String) (a b : A) → set key (array (texts ds)) a ≡ ok b → domains_in b ≡ ds

  -- An argument that is added to the others is taken last.
  bind_kwargs-insert :
      Sets
      → (ds : List String) (kwargs : Kwargs) (a b : A) → lookup key kwargs ≡ none
      → bind_kwargs set (insert key (array (texts ds)) kwargs) a ≡ ok b
      → domains_in b ≡ ds
  unfolding bind_kwargs insert lookup
  bind_kwargs-insert sets ds [] a b fresh h =
      let (c, first, rest) = bind-ok (set key (array (texts ds)) a) ok b h in
      sets ds a b (first ∙ rest)
  bind_kwargs-insert sets ds ((k, v) ∷ kwargs) a b fresh h = elim (Bool-cases (key == k)) [
    | inl same ↦ absurd (ground (arith, fresh, same))
    | inr other ↦
        let (c, first, rest) =
          bind-ok (set k v a) (bind_kwargs set (insert key (array (texts ds)) kwargs)) b
            (rw other at h) in
        bind_kwargs-insert sets ds kwargs c b (ground (arith, fresh, other)) rest
  ]

set_httpx-Sets :
    {C : Type 0} → Sets (set_httpx {C = C}) (λ f. f.allowlist_domains) "allowlist_domains"
unfolding set_httpx string_eq
set_httpx-Sets ds a b h =
    let (given, read, made) =
      bind-ok (domains_arg (array (texts ds)))
        (λ domains. ok (record a { allowlist_domains = domains })) b h in
    ap (λ f. f.allowlist_domains) (sym (ok_injective made))
    ∙ sym (ok_injective (sym (domains_arg-texts ds) ∙ read))

set_firecrawl-Sets :
    {W : Type 0} → Sets (set_firecrawl {W = W}) (λ f. f.allowlist_domains) "allowlist_domains"
unfolding set_firecrawl string_eq
set_firecrawl-Sets ds a b h =
    let (given, read, made) =
      bind-ok (domains_arg (array (texts ds)))
        (λ domains. ok (record a { allowlist_domains = domains })) b h in
    ap (λ f. f.allowlist_domains) (sym (ok_injective made))
    ∙ sym (ok_injective (sym (domains_arg-texts ds) ∙ read))

-- The arguments of a fetcher that takes the allowlist, where the credentials have none.
fetch_kwargs-insert :
    (name : String) (allow : List String) (kwargs given : Kwargs)
    → takes_allowlist "fetch" name ≡ true
    → lookup "allowlist_domains" kwargs ≡ none
    → fetch_kwargs "fetch" name (some allow) kwargs ≡ ok given
    → insert "allowlist_domains" (array (texts (normalize_allow allow))) kwargs ≡ given
unfolding fetch_kwargs with_allow
fetch_kwargs-insert name allow kwargs given takes fresh h = ground (arith, takes, fresh, h)

module _ {A : Type 0} (entry_points : String → List (EntryPoint (AdapterClass A))) where
  construct_class-init :
      (name : String) (credentials : Credentials) (allow_stubs : Bool)
      (trust_allow : Option (List String)) (cls : AdapterClass A) (a : A)
      → construct_class entry_points "fetch" name credentials allow_stubs trust_allow cls ≡ ok a
      → (given : Kwargs) × (fetch_kwargs "fetch" name trust_allow (kwargs_for name credentials)
          ≡ ok given)
        × (cls.init given ≡ ok a)
  unfolding construct_class search_kwargs string_eq
  construct_class-init name credentials allow_stubs trust_allow cls a h =
      elim (Reply-cases (fetch_kwargs "fetch" name trust_allow (kwargs_for name credentials))) [
        | inr (e, refused) ↦ ground (arith, h, refused)
        | inl (given, filled) ↦ (
          given,
          filled,
          refuse_type_error-ok entry_points name (cls.init given) a (ground (arith, h, filled)),
        )
      ]

  -- What `_construct` calls the class of a fetcher with, where the credentials have no allowlist.
  construct-init :
      (name : String) (credentials : Credentials) (allow_stubs : Bool) (allow : List String)
      (cls : AdapterClass A) (a : A)
      → takes_allowlist "fetch" name ≡ true
      → lookup "allowlist_domains" (kwargs_for name credentials) ≡ none
      → load_adapter_class entry_points "fetch" name ≡ ok cls
      → construct entry_points "fetch" name credentials allow_stubs (some allow) ≡ ok a
      → cls.init (
          insert "allowlist_domains"
            (array (texts (normalize_allow allow)))
            (kwargs_for name credentials))
        ≡ ok a
  unfolding construct
  construct-init name credentials allow_stubs allow cls a takes fresh loaded h =
      let class_made : construct_class entry_points "fetch" name credentials allow_stubs
            (some allow) cls
          ≡ ok a =
        ground (arith, h, loaded) in
      let (given, filled, made) =
        construct_class-init name credentials allow_stubs (some allow) cls a class_made in
      ap cls.init
        (fetch_kwargs-insert name allow (kwargs_for name credentials) given takes fresh filled)
      ∙ made

-- An httpx fetcher that `_construct` makes gets the policy's allowlist, as normalized.
pub construct-httpx :
    {C : Type 0} (entry_points : String → List (EntryPoint (AdapterClass (HttpxFetcher C))))
    (credentials : Credentials) (allow_stubs : Bool) (allow : List String) (f : HttpxFetcher C)
    → load_adapter_class entry_points "fetch" "httpx" ≡ ok httpx_class
    → lookup "allowlist_domains" (kwargs_for "httpx" credentials) ≡ none
    → construct entry_points "fetch" "httpx" credentials allow_stubs (some allow) ≡ ok f
    → f.allowlist_domains ≡ normalize_allow allow
unfolding httpx_init string_eq
construct-httpx entry_points credentials allow_stubs allow f loaded fresh h =
    bind_kwargs-insert set_httpx (λ g. g.allowlist_domains) "allowlist_domains" set_httpx-Sets
      (normalize_allow allow) (kwargs_for "httpx" credentials) _ f fresh
      (construct-init entry_points "httpx" credentials allow_stubs allow httpx_class f refl fresh
        loaded h)

need_api_key-ok :
    {A : Type 0} (kwargs : Kwargs) (made : Reply A) (a : A)
    → need_api_key kwargs made ≡ ok a
    → made ≡ ok a
need_api_key-ok kwargs made a h = ground (arith, h)

pub construct-firecrawl :
    {W : Type 0} (entry_points : String → List (EntryPoint (AdapterClass (FirecrawlFetcher W))))
    (credentials : Credentials) (allow_stubs : Bool) (allow : List String) (f : FirecrawlFetcher W)
    → load_adapter_class entry_points "fetch" "firecrawl" ≡ ok firecrawl_class
    → lookup "allowlist_domains" (kwargs_for "firecrawl" credentials) ≡ none
    → construct entry_points "fetch" "firecrawl" credentials allow_stubs (some allow) ≡ ok f
    → f.allowlist_domains ≡ normalize_allow allow
unfolding firecrawl_init string_eq
construct-firecrawl entry_points credentials allow_stubs allow f loaded fresh h =
    bind_kwargs-insert set_firecrawl (λ g. g.allowlist_domains) "allowlist_domains"
      set_firecrawl-Sets (normalize_allow allow) (kwargs_for "firecrawl" credentials) _ f fresh
      (need_api_key-ok _ _ f (
        construct-init entry_points "firecrawl" credentials allow_stubs allow firecrawl_class f refl
          fresh loaded h))
