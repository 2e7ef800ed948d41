-- ===== src/Factory/Construct/Checked.antt =====
-- What is checked before an adapter is constructed.
use wyndpy.Base.{
  [], ◌&&◌, ◌||◌, none, some, ◌≢◌, sym, Option-cases, if◌then◌else◌, String, List, Bool, true,
  false, Option, ◌==◌, string_eq, ◌≡◌, ◌⊎◌, refl, ap, ◌∙◌, subst, ==_iff, inl, inr, Bool-cases,
  arith,
}
use wyndpy.Base.Dict.{lookup, lookup-insert}
use wyndpy.Base.Value.{Value, no_items, array, truthy, texts}
use wyndpy.Factory.Allow.{normalize_allow, normalize_from}
use wyndpy.Base.Reply.{Reply, ok, raised, Reply-cases}
use wyndpy.Core.Discovery.{EntryPoint, load_adapter_class}
use wyndpy.Factory.Construct.{
  Kwargs, Credentials, AdapterClass, or_nothing, is_implemented, kwargs_for, is_set, with_allow,
  takes_allowlist, fetch_kwargs, search_kwargs, refuse_type_error, construct_class, construct,
}

-- The arguments of the credentials under the adapter's name, if there are any.
pub data HasCredentials (name : String) (credentials : Credentials) : Kwargs → Type 0 where
  set_for :
      (kwargs : Kwargs)
      → lookup name credentials ≡ some kwargs
      → HasCredentials name credentials kwargs
  unset : lookup name credentials ≡ none → HasCredentials name credentials []

pub kwargs_for-HasCredentials :
    (name : String) (credentials : Credentials)
    → HasCredentials name credentials (kwargs_for name credentials)
kwargs_for-HasCredentials name credentials = go (lookup name credentials) refl
  where
    go :
        (o : Option Kwargs)
        → lookup name credentials ≡ o
        → HasCredentials name credentials (elim o [ none ↦ [] | some kwargs ↦ kwargs ])
    go none h = unset h
    go (some kwargs) h = set_for kwargs h

-- The parameters that take a list of domains.
abbrev pub takes_domains : String → String → String → Bool
takes_domains role name key =
    (role == "fetch" && (name == "httpx" || name == "firecrawl") && key == "allowlist_domains")
    || (role == "search" && name == "exa" && key == "domain_allowlist")

abbrev pub domains_of : Option (List String) → Value
domains_of none = array no_items
domains_of (some patterns) = array (texts (normalize_allow patterns))

-- What an adapter is given for a parameter: its credentials, and without them the policy's domains.
abbrev pub argument_of : String → String → Option (List String) → Kwargs → String → Option Value
argument_of role name trust_allow own key = elim (lookup key own) [
  | some v ↦ some v
  | none ↦ if takes_domains role name key then some (domains_of trust_allow) else none
]

module _ {A : Type 0} (entry_points : String → List (EntryPoint (AdapterClass A))) where
  -- The class of the name is no stub unless stubs are allowed. It is given just the arguments of
  -- the credentials and, where they have none, the policy's domains; those of httpx count as true.
  -- The adapter is what the class gives for the arguments.
  pub record IsChecked (role name : String) (credentials : Credentials) (allow_stubs : Bool)
      (trust_allow : Option (List String)) (adapter : A) : Type 0 where
    pub cls : AdapterClass A
    pub own : Kwargs
    pub kwargs : Kwargs
    pub loaded : load_adapter_class entry_points role name ≡ ok cls
    pub implemented : (cls.implemented ≢ some false) ⊎ (allow_stubs ≡ true)
    pub credited : HasCredentials name credentials own
    pub arguments : (key : String) → lookup key kwargs ≡ argument_of role name trust_allow own key
    pub listed :
        role ≡ "fetch"
        → name ≡ "httpx"
        → (v : Value) × (lookup "allowlist_domains" kwargs ≡ some v) × (truthy v ≡ true)
    pub made : cls.init kwargs ≡ ok adapter

  or_nothing-domains_of :
      (trust_allow : Option (List String))
      → ◌≡◌ {A = Value}
          (array (texts (normalize_allow (or_nothing trust_allow))))
          (domains_of trust_allow)
  unfolding normalize_allow normalize_from texts
  or_nothing-domains_of none = refl
  or_nothing-domains_of (some patterns) = refl

  with_allow-lookup :
      (param : String) (trust_allow : Option (List String)) (own : Kwargs) (key : String)
      → lookup key (with_allow param trust_allow own) ≡ (elim (lookup key own) [
        | some v ↦ some v
        | none ↦ if key == param then some (domains_of trust_allow) else none
      ])
  unfolding with_allow
  with_allow-lookup param trust_allow own key =
      let v : Value = array (texts (normalize_allow (or_nothing trust_allow))) in
      elim (Bool-cases (key == param)) [
        | inl same ↦ elim (Option-cases (lookup param own)) [
          | inl missing ↦ ground (
            arith,
            same,
            missing,
            lookup-insert key param v own,
            ap (λ k. lookup k own) ((==_iff key param).0 same),
            or_nothing-domains_of trust_allow,
          )
          | inr (x, there) ↦
              ground (arith, same, there, ap (λ k. lookup k own) ((==_iff key param).0 same))
        ]
        | inr differs ↦ elim (Option-cases (lookup key own)) [
          | inl missing ↦ ground (arith, differs, missing, lookup-insert key param v own)
          | inr (x, there) ↦ ground (arith, differs, there, lookup-insert key param v own)
        ]
      ]

  fetch_search : let role : String = "fetch" in (role == "search") ≡ false
  unfolding string_eq
  fetch_search = refl

  is_fetch-not_search : (role : String) → role == "fetch" ≡ true → role == "search" ≡ false
  is_fetch-not_search role h = ap (λ x. x == "search") ((==_iff role "fetch").0 h) ∙ fetch_search

  fetch_side :
      (role name : String) (trust_allow : Option (List String)) (own kwargs : Kwargs)
      → fetch_kwargs role name trust_allow own ≡ ok kwargs
      → (key : String) → takes_allowlist role name ≡ true
      → lookup key (search_kwargs role name trust_allow kwargs)
        ≡ argument_of role name trust_allow own key
  unfolding fetch_kwargs search_kwargs
  fetch_side role name trust_allow own kwargs h key takes =
      let is_fetch : role == "fetch" ≡ true = ground (arith, takes) in
      let other : role == "search" ≡ false = is_fetch-not_search role is_fetch in
      let filled = with_allow "allowlist_domains" trust_allow own in
      let same : filled ≡ kwargs = ground (arith, h, takes) in
      let unsearched : search_kwargs role name trust_allow kwargs ≡ kwargs =
        ground (arith, other) in
      ap (lookup key) (unsearched ∙ sym same)
      ∙ with_allow-lookup "allowlist_domains" trust_allow own key
      ∙ ground (arith, takes, other)

  search_side :
      (role name : String) (trust_allow : Option (List String)) (own kwargs : Kwargs)
      → fetch_kwargs role name trust_allow own ≡ ok kwargs
      → (key : String) → takes_allowlist role name ≡ false
      → lookup key (search_kwargs role name trust_allow kwargs)
        ≡ argument_of role name trust_allow own key
  unfolding fetch_kwargs search_kwargs
  search_side role name trust_allow own kwargs h key other =
      let same : own ≡ kwargs = ground (arith, h, other) in
      elim (Bool-cases (role == "search" && name == "exa")) [
        | inl searches ↦
            let filled : search_kwargs role name trust_allow kwargs
                ≡ with_allow "domain_allowlist" trust_allow kwargs =
              ground (arith, searches) in
            ap (lookup key) (filled ∙ ap (with_allow "domain_allowlist" trust_allow) (sym same))
            ∙ with_allow-lookup "domain_allowlist" trust_allow own key
            ∙ ground (arith, searches, other)
        | inr neither ↦
            let kept : search_kwargs role name trust_allow kwargs ≡ kwargs =
              ground (arith, neither) in
            ap (lookup key) (kept ∙ sym same) ∙ ground (arith, neither, other)
      ]

  fetch_kwargs-lookup :
      (role name : String) (trust_allow : Option (List String)) (own kwargs : Kwargs)
      → fetch_kwargs role name trust_allow own ≡ ok kwargs
      → (key : String)
      → lookup key (search_kwargs role name trust_allow kwargs)
        ≡ argument_of role name trust_allow own key
  unfolding fetch_kwargs search_kwargs
  fetch_kwargs-lookup role name trust_allow own kwargs h key =
      elim (Bool-cases (takes_allowlist role name)) [
        | inl takes ↦ fetch_side role name trust_allow own kwargs h key takes
        | inr other ↦ search_side role name trust_allow own kwargs h key other
      ]

  is_set-some :
      (key : String) (kwargs : Kwargs)
      → is_set key kwargs ≡ true
      → (v : Value) × (lookup key kwargs ≡ some v) × (truthy v ≡ true)
  is_set-some key kwargs h = elim (Option-cases (lookup key kwargs)) [
    | inl missing ↦ ground (arith, h, missing)
    | inr (v, found) ↦ (v, found, ground (arith, h, found))
  ]

  is_implemented-lem : (o : Option Bool) → is_implemented o ≡ true → o ≢ some false
  is_implemented-lem none h = λ e. cc
  is_implemented-lem (some b) h = λ e. cc

  search_kwargs-fetch :
      (role name : String) (trust_allow : Option (List String)) (kwargs : Kwargs)
      → role ≡ "fetch"
      → name ≡ "httpx"
      → search_kwargs role name trust_allow kwargs ≡ kwargs
  unfolding search_kwargs
  search_kwargs-fetch role name trust_allow kwargs r n =
      let other_role : (role == "search") ≡ false = ap (λ x. x == "search") r ∙ fetch_search in
      ground (arith, other_role)

  fetch_kwargs-httpx :
      (role name : String) (trust_allow : Option (List String)) (given kwargs : Kwargs)
      → role ≡ "fetch"
      → name ≡ "httpx"
      → fetch_kwargs role name trust_allow given ≡ ok kwargs
      → is_set "allowlist_domains" kwargs ≡ true
  unfolding fetch_kwargs
  fetch_kwargs-httpx role name trust_allow given kwargs r n h =
      let filled = with_allow "allowlist_domains" trust_allow given in
      let takes : takes_allowlist role name ≡ true =
        ground (arith, (==_iff role "fetch").1 r, (==_iff name "httpx").1 n) in
      let is_httpx = (==_iff name "httpx").1 n in
      elim (Bool-cases (is_set "allowlist_domains" filled)) [
        | inl listed ↦
            let same : filled ≡ kwargs = ground (arith, h, takes, is_httpx, listed) in
            subst (λ k. is_set "allowlist_domains" k ≡ true) same listed
        | inr unlisted ↦ ground (arith, h, takes, is_httpx, unlisted)
      ]

  pub refuse_type_error-ok :
      (name : String) (reply : Reply A) (adapter : A)
      → refuse_type_error name reply ≡ ok adapter
      → reply ≡ ok adapter
  unfolding refuse_type_error
  refuse_type_error-ok name (ok a) adapter h = h
  refuse_type_error-ok name (raised e) adapter h = ground (arith, h)

  construct_class-IsChecked :
      (role name : String) (credentials : Credentials) (allow_stubs : Bool)
      (trust_allow : Option (List String)) (cls : AdapterClass A) (adapter : A)
      → load_adapter_class entry_points role name ≡ ok cls
      → construct_class entry_points role name credentials allow_stubs trust_allow cls ≡ ok adapter
      → IsChecked role name credentials allow_stubs trust_allow adapter
  unfolding construct_class
  construct_class-IsChecked role name credentials allow_stubs trust_allow cls adapter loaded h =
      elim (Reply-cases (fetch_kwargs role name trust_allow (kwargs_for name credentials))) [
        | inr (e, refused) ↦ ground (arith, h, refused)
        | inl (given, filled) ↦ record {
          cls = cls;
          kwargs = search_kwargs role name trust_allow given;
          loaded = loaded;
          own = kwargs_for name credentials;
          credited = kwargs_for-HasCredentials name credentials;
          arguments =
              fetch_kwargs-lookup role name trust_allow (kwargs_for name credentials) given filled;
          implemented = elim (Bool-cases (is_implemented cls.implemented)) [
            | inl there ↦ inl (is_implemented-lem cls.implemented there)
            | inr stub ↦ inr (ground (arith, h, stub))
          ];
          listed = λ r n. is_set-some "allowlist_domains" _ (
              rw (search_kwargs-fetch role name trust_allow given r n) (
                fetch_kwargs-httpx role name trust_allow (kwargs_for name credentials) given r n
                  filled));
          made =
              refuse_type_error-ok name (cls.init (search_kwargs role name trust_allow given))
                adapter (ground (arith, h, filled));
        }
      ]

  -- An adapter that `_construct` gives is what the class of the name gives for just the arguments of
  -- its credentials and, for a parameter that takes domains and that they do not set, the policy's
  -- patterns as `_normalize_allow` renders them. The class is no stub unless stubs are allowed, and
  -- the domains of httpx, the credentials' or the policy's, count as true.
  pub construct-IsChecked :
      (role name : String) (credentials : Credentials) (allow_stubs : Bool)
      (trust_allow : Option (List String)) (adapter : A)
      → construct entry_points role name credentials allow_stubs trust_allow ≡ ok adapter
      → IsChecked role name credentials allow_stubs trust_allow adapter
  unfolding construct
  construct-IsChecked role name credentials allow_stubs trust_allow adapter h =
      elim (Reply-cases (load_adapter_class entry_points role name)) [
        | inr (e, unknown) ↦ ground (arith, h, unknown)
        | inl (cls, loaded) ↦
            construct_class-IsChecked role name credentials allow_stubs trust_allow cls adapter
              loaded (ground (arith, h, loaded))
      ]
