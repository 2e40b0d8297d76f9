-- ===== src/Translator/Yandex.antt =====
-- internal/translator/yandex.go: one request to Yandex Translate. The HTTP client and the JSON codec
-- are a parameter: what they answer to a request.
use abb_app.Base.{ℕ, Bool, ◌&&◌, List, [], ◌∷◌, ◌++◌, ◌==◌, if◌then◌else◌}
use abb_app.Base.Text.{Text, codes, text_eq, decimal}
use abb_app.Db.Session.{Outcome, ok, err}

pub record TranslateRequest : Type 0 where
  pub folder_id : Text
  pub texts : List Text
  pub target_language_code : Text
  pub source_language_code : Text

pub record Translation : Type 0 where
  pub text : Text
  pub detected_language_code : Text

-- The HTTP status with the body, and the body decoded as JSON.
pub record Response : Type 0 where
  pub status : ℕ
  pub body : Text
  pub translations : Outcome (List Translation)

pub record Yandex : Type 0 where
  pub folder_id : Text
  pub target_lang : Text

abbrev pub georgian : Text
georgian = codes "ka"

-- The request; an empty sourceLanguageCode is left out of the JSON.
unfoldable pub request_for : Yandex → Text → Bool → TranslateRequest
request_for y text is_georgian = record {
  folder_id = y.folder_id;
  texts = text ∷ [];
  target_language_code = y.target_lang;
  source_language_code = if is_georgian then georgian else [];
}

-- The first translation; its language is the forced one where the answer omits it.
unfoldable pub read_translations : Bool → List Translation → Outcome (Text × Text)
read_translations is_georgian [] = err (codes "yandex translate: empty response")
read_translations is_georgian (t ∷ ts) = ok (
  t.text,
  if text_eq t.detected_language_code [] && is_georgian then georgian else t.detected_language_code,
)

abbrev read_decoded : Bool → Outcome (List Translation) → Outcome (Text × Text)
read_decoded is_georgian (err e) = err (codes "decode: " ++ e)
read_decoded is_georgian (ok ts) = read_translations is_georgian ts

abbrev read_response : Bool → Outcome Response → Outcome (Text × Text)
read_response is_georgian (err e) = err (codes "http: " ++ e)
read_response is_georgian (ok r) =
    if r.status == 200
    then read_decoded is_georgian r.translations
    else err (codes "yandex translate: status " ++ (decimal r.status ++ (codes ": " ++ r.body)))

-- TranslateFor, with the verdict of LooksLikeGeorgianLatinFor as a function.
unfoldable pub translate_for :
    Yandex
    → (Text → Text → Bool)
    → (TranslateRequest → Outcome Response)
    → Text
    → Text
    → Outcome (Text × Text)
unfolding request_for read_translations
translate_for y looks server text recipient =
    let is_georgian = looks text recipient in
    read_response is_georgian (server (request_for y text is_georgian))
