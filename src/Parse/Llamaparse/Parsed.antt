-- ===== src/Parse/Llamaparse/Parsed.antt =====
-- What a result of the LlamaParse parser holds.
use wyndpy.Base.{ℕ, String, [], ◌∷◌, string_eq, ℕ_eq, ◌≡◌, ◌≢◌, inl, inr, Bool-cases, some, arith}
use wyndpy.Base.Reply.{Exception, Reply, ok, raised}
use wyndpy.Core.Results.{Bytes, RetrievalResult, result}
use wyndpy.Fetch.Network.{hash_body, Platform, Http}
use wyndpy.Parse.Llamaparse.{
  LlamaParseParser, parse_failed, markdown_for, has_no_parse, of_markdown, parse,
}

-- The hash is that of the document's bytes, and does not depend on the markdown.
pub record IsParsed {W : Type 0} (os : Platform W) (doc : Bytes) (res : RetrievalResult)
    : Type 0 where
  pub nonempty : doc ≢ []
  pub hashed : res.content_hash ≡ hash_body os doc
  pub kept : res.raw_bytes ≡ some doc
  pub typed : res.content_type ≡ "text/markdown"

module _ {W C : Type 0} (os : Platform W) (http : Http W C) where
  parse_failed-error : (e : Exception) (res : RetrievalResult) → parse_failed e ≢ ok (result res)
  unfolding parse_failed
  parse_failed-error e res h = ground (arith, h)

  of_markdown-IsParsed :
      (b : ℕ) (doc : Bytes) (now : ℕ) (markdown : Reply String) (res : RetrievalResult)
      → of_markdown os http (b ∷ doc) now markdown ≡ ok (result res)
      → IsParsed os (b ∷ doc) res
  unfolding of_markdown
  of_markdown-IsParsed b doc now (raised e) res h = absurd (parse_failed-error e res h)
  of_markdown-IsParsed b doc now (ok markdown) res h = record {
    nonempty = λ e. cc;
    hashed = ground (arith, h);
    kept = ground (arith, h);
    typed = ground (arith, h);
  }

  -- A result of `parse` is of a document that is not empty, is typed as markdown, keeps the bytes of
  -- the document, and has their hash, whatever the markdown is.
  pub parse-IsParsed :
      (p : LlamaParseParser W) (doc : Bytes) (mime_type : String) (w : W) (res : RetrievalResult)
      → (parse os http p doc mime_type w).0 ≡ ok (result res)
      → IsParsed os doc res
  unfolding parse
  parse-IsParsed p [] mime_type w res h = ground (arith, h)
  parse-IsParsed p (b ∷ doc) mime_type w res h = elim (Bool-cases (has_no_parse os http p)) [
    | inl unset ↦ ground (arith, h, unset)
    | inr usable ↦
        let (markdown, w1) = markdown_for os http p (b ∷ doc) mime_type w in
        of_markdown-IsParsed b doc (os.now w1) markdown res (ground (arith, h, usable))
  ]
