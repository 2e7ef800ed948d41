-- ===== src/Factory/Classes.antt =====
-- The classes of the built-in adapters, as `_construct` calls them: `__init__` of
-- wyndpy/fetch/httpx_adapter.py, firecrawl_adapter.py, search/exa_adapter.py and
-- parse/llamaparse_adapter.py with keyword arguments. A value of
-- another type than the signature's is not represented: the call raises an exception instead.
pub mod Given
use wyndpy.Base.{
  ℕ, String, ◌<>◌, List, [], ◌∷◌, Bool, true, false, not, Option, none, some, ◌==◌, string_eq,
  if◌then◌else◌,
}
use wyndpy.Base.Reply.{type_error, other, Reply, ok, raised, ◌>>=◌}
use wyndpy.Base.Value.{Value, ℤ, pos, null, int, float, text, array, Float, Items, no_items, item}
use wyndpy.Fetch.Httpx.{HttpxFetcher, new_httpx, default_timeout_s, default_max_bytes}
use wyndpy.Fetch.Firecrawl.{FirecrawlFetcher}
use wyndpy.Search.Exa.{ExaSearcher}
use wyndpy.Parse.Llamaparse.{LlamaParseParser}
use wyndpy.Factory.Construct.{Kwargs, AdapterClass, has_key}

unfoldable pub texts_of : Items → Option (List String)
texts_of no_items = some []
texts_of (item (text s) items) = elim (texts_of items) [ none ↦ none | some ss ↦ some (s ∷ ss) ]
texts_of (item _ items) = none

abbrev pub mistyped : {A : Type 0} → Reply A
mistyped = raised (other "an argument of another type")

-- `allowlist_domains or []`
unfoldable pub domains_arg : Value → Reply (List String)
domains_arg null = ok []
domains_arg (array items) = elim (texts_of items) [ none ↦ mistyped | some domains ↦ ok domains ]
domains_arg _ = mistyped

abbrev pub float_arg : Value → Reply Float
float_arg (float x) = ok x
float_arg _ = mistyped

abbrev pub count_arg : Value → Reply ℕ
count_arg (int (pos n)) = ok n
count_arg _ = mistyped

abbrev pub text_arg : Value → Reply String
text_arg (text s) = ok s
text_arg _ = mistyped

-- `None` for an argument that is else an object, a client or a callable.
abbrev pub none_arg : {A : Type 0} → Value → A → Reply A
none_arg null a = ok a
none_arg _ a = mistyped

-- A call with keyword arguments, from the defaults: `set` takes one argument.
unfoldable pub bind_kwargs : {A : Type 0} → (String → Value → A → Reply A) → Kwargs → A → Reply A
bind_kwargs set [] a = ok a
bind_kwargs set ((key, v) ∷ kwargs) a = do b ← set key v a; bind_kwargs set kwargs b

abbrev pub unexpected : {A : Type 0} → String → Reply A
unexpected key = raised (type_error ("got an unexpected keyword argument '" <> key <> "'"))

module _ {C : Type 0} where
  unfoldable pub set_httpx : String → Value → HttpxFetcher C → Reply (HttpxFetcher C)
  unfolding domains_arg
  set_httpx key v f =
      if key == "allowlist_domains"
      then (do domains ← domains_arg v; ok (record f { allowlist_domains = domains }))
      else if key == "timeout_s"
      then (do limit ← float_arg v; ok (record f { timeout_s = limit }))
      else if key == "max_bytes"
      then (do n ← count_arg v; ok (record f { max_bytes = n }))
      else if key == "user_agent"
      then (do agent ← text_arg v; ok (record f { user_agent = agent }))
      else if key == "client"
      then none_arg v f
      else unexpected key

  -- `HttpxFetcher(**kwargs)`
  unfoldable pub httpx_init : Kwargs → Reply (HttpxFetcher C)
  httpx_init kwargs =
      bind_kwargs set_httpx kwargs
        (new_httpx none default_timeout_s default_max_bytes "wyndpy-fetch/0.1" none)

  abbrev pub httpx_class : AdapterClass (HttpxFetcher C)
  httpx_class = record { implemented = some true; qualname = "HttpxFetcher"; init = httpx_init }

-- The first argument, `api_key`, has no default.
abbrev pub need_api_key : {A : Type 0} → Kwargs → Reply A → Reply A
need_api_key kwargs made =
    if has_key "api_key" kwargs
    then made
    else raised (type_error "missing 1 required positional argument: 'api_key'")

-- `DEFAULT_TIMEOUT_S` of the Firecrawl adapter, the bits of 30.0.
abbrev pub firecrawl_timeout_s : Float
firecrawl_timeout_s = record { bits = 4629137466983448576 }

module _ {W : Type 0} where
  unfoldable pub set_firecrawl : String → Value → FirecrawlFetcher W → Reply (FirecrawlFetcher W)
  unfolding domains_arg
  set_firecrawl key v f =
      if key == "allowlist_domains"
      then (do domains ← domains_arg v; ok (record f { allowlist_domains = domains }))
      else if key == "api_key"
      then (do secret ← text_arg v; ok (record f { api_key = secret }))
      else if key == "timeout_s"
      then (do limit ← float_arg v; ok (record f { timeout_s = limit }))
      else if key == "max_bytes"
      then (do n ← count_arg v; ok (record f { max_bytes = n }))
      else if key == "scrape"
      then none_arg v f
      else unexpected key

  -- `FirecrawlFetcher(**kwargs)`
  unfoldable pub firecrawl_init : Kwargs → Reply (FirecrawlFetcher W)
  firecrawl_init kwargs = need_api_key kwargs (
      bind_kwargs set_firecrawl kwargs (record {
        api_key = "";
        allowlist_domains = [];
        timeout_s = firecrawl_timeout_s;
        max_bytes = default_max_bytes;
        scrape = none;
      }))

  abbrev pub firecrawl_class : AdapterClass (FirecrawlFetcher W)
  firecrawl_class = record {
    implemented = some true;
    qualname = "FirecrawlFetcher";
    init = firecrawl_init;
  }

-- `DEFAULT_TIMEOUT_S` of the Exa and of the LlamaParse adapter, the bits of 20.0 and of 60.0.
abbrev pub exa_timeout_s : Float
exa_timeout_s = record { bits = 4626322717216342016 }

abbrev pub llamaparse_timeout_s : Float
llamaparse_timeout_s = record { bits = 4633641066610819072 }

module _ {W : Type 0} where
  unfoldable pub set_exa : String → Value → ExaSearcher W → Reply (ExaSearcher W)
  unfolding domains_arg
  set_exa key v exa =
      if key == "domain_allowlist"
      then (do domains ← domains_arg v; ok (record exa { domain_allowlist = domains }))
      else if key == "api_key"
      then (do secret ← text_arg v; ok (record exa { api_key = secret }))
      else if key == "timeout_s"
      then (do limit ← float_arg v; ok (record exa { timeout_s = limit }))
      else if key == "search_fn"
      then none_arg v exa
      else unexpected key

  -- `ExaSearcher(**kwargs)`
  unfoldable pub exa_init : Kwargs → Reply (ExaSearcher W)
  exa_init kwargs = need_api_key kwargs (
      bind_kwargs set_exa kwargs (record {
        api_key = "";
        domain_allowlist = [];
        timeout_s = exa_timeout_s;
        search_fn = none;
      }))

  abbrev pub exa_class : AdapterClass (ExaSearcher W)
  exa_class = record { implemented = some true; qualname = "ExaSearcher"; init = exa_init }

  unfoldable pub set_llamaparse : String → Value → LlamaParseParser W → Reply (LlamaParseParser W)
  set_llamaparse key v p =
      if key == "api_key"
      then (do secret ← text_arg v; ok (record p { api_key = secret }))
      else if key == "timeout_s"
      then (do limit ← float_arg v; ok (record p { timeout_s = limit }))
      else if key == "parse_fn"
      then none_arg v p
      else unexpected key

  -- `LlamaParseParser(**kwargs)`
  unfoldable pub llamaparse_init : Kwargs → Reply (LlamaParseParser W)
  llamaparse_init kwargs = need_api_key kwargs (
      bind_kwargs set_llamaparse kwargs
        (record { api_key = ""; timeout_s = llamaparse_timeout_s; parse_fn = none }))

  abbrev pub llamaparse_class : AdapterClass (LlamaParseParser W)
  llamaparse_class = record {
    implemented = some true;
    qualname = "LlamaParseParser";
    init = llamaparse_init;
  }
