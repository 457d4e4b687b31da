-- ===== src/Update/Fetch.antt =====
-- `crates/secure-sudoers-utils/src/modules/network.rs`: URLs and what is read from the server. The
-- crates for URLs and HTTP are parameters.
use secure_sudoers_setup.Base.{
  ℕ, ◌+◌, Bool, not, ltb, List, [], ◌∷◌, ◌++◌, Option, none, some, Result, ok, err, ◌>>=◌, ◌>>◌,
  map_err, if◌then◌else◌, is_empty, length,
}
use secure_sudoers_setup.Text.{Text, lit, show}
use secure_sudoers_setup.Error.{Error, IoError, io_context, config, parse, network}
use secure_sudoers_setup.Models.Validate.{concat, guard}

-- `reqwest::Url`
pub record Urls : Type 1 where
  pub Url : Type 0
  pub parse : Text → Option Url
  pub scheme : Url → Text
  pub path : Url → Text
  pub set_path : Text → Url → Url
  -- `set_query(None)`
  pub clear_query : Url → Url
  -- `set_fragment(None)`
  pub clear_fragment : Url → Url
  pub password : Url → Option Text
  -- a failure of `set_password` and of `set_username` leaves the URL as it is
  pub set_password : Text → Url → Url
  pub username : Url → Text
  pub set_username : Text → Url → Url
  pub to_string : Url → Text

-- `reqwest::Error`, as far as it is read
pub record RequestError : Type 0 where
  pub is_timeout : Bool
  pub is_connect : Bool
  pub is_request : Bool

pub record Response : Type 0 where
  pub is_success : Bool
  pub status : Text
  pub content_length : Option ℕ
  -- `response.take(n).read_to_end`
  pub read_up_to : ℕ → Result IoError (List ℕ)

pub record Client (urls : Urls) : Type 0 where
  -- `client.get(url).send()`
  pub send : urls.Url → Result RequestError Response

abbrev pub max_policy_bytes : ℕ
max_policy_bytes = 1_048_576

abbrev pub reason_of : RequestError → Text
reason_of e =
    if e.is_timeout
    then lit "request timed out"
    else if e.is_connect
    then lit "connection failed"
    else if e.is_request
    then lit "request build failed"
    else lit "request failed"

abbrev pub too_long : ℕ → Error
too_long content_len = config (
    concat (
      lit "Server Content-Length "
      ∷ show content_len
      ∷ lit " exceeds "
      ∷ show max_policy_bytes
      ∷ lit "-byte limit"
      ∷ []))

abbrev pub check_content_length : Option ℕ → Result Error (Unit {0})
check_content_length none = ok tt
check_content_length (some content_len) =
    guard (not (ltb max_policy_bytes content_len)) (too_long content_len)

abbrev pub body_too_long : Error
body_too_long =
    config (concat (lit "Response body exceeds " ∷ show max_policy_bytes ∷ lit "-byte limit" ∷ []))

module _ (urls : Urls) where
  abbrev redact_password : Option Text → urls.Url → urls.Url
  redact_password none url = url
  redact_password (some password) url = urls.set_password (lit "REDACTED") url

  abbrev redact_username : urls.Url → urls.Url
  redact_username url =
      if not (is_empty (urls.username url)) then urls.set_username (lit "REDACTED") url else url

  unfoldable pub sanitize_url_for_logs : urls.Url → Text
  sanitize_url_for_logs url =
      let parsed = urls.clear_fragment (urls.clear_query url) in
      urls.to_string (redact_username (redact_password (urls.password parsed) parsed))

  abbrev sanitize_parsed : Option urls.Url → Text
  sanitize_parsed none = lit "<redacted-invalid-url>"
  sanitize_parsed (some parsed) = sanitize_url_for_logs parsed

  abbrev pub sanitize_url_for_logs_from_str : Text → Text
  sanitize_url_for_logs_from_str url = sanitize_parsed (urls.parse url)

  abbrev parsed_or : Text → Option urls.Url → Result Error urls.Url
  parsed_or url none =
      err (parse (lit "Invalid policy URL: " ++ sanitize_url_for_logs_from_str url))
  parsed_or url (some parsed) = ok parsed

  unfoldable pub parse_policy_url : Text → Result Error urls.Url
  parse_policy_url url = parsed_or url (urls.parse url)

  unfoldable pub signature_url_for_policy : urls.Url → urls.Url
  signature_url_for_policy policy_url =
      urls.clear_fragment (urls.set_path (urls.path policy_url ++ lit ".sig") policy_url)

  abbrev pub send_failure : urls.Url → RequestError → Error
  send_failure url e =
      network (concat (lit "GET " ∷ sanitize_url_for_logs url ∷ lit " failed: " ∷ reason_of e ∷ []))

  abbrev pub status_failure : urls.Url → Text → Error
  status_failure url status =
      network (concat (lit "HTTP " ∷ status ∷ lit " for " ∷ sanitize_url_for_logs url ∷ []))

  abbrev pub body_failure : urls.Url → IoError → Error
  body_failure url e = io_context (lit "Failed to read body of " ++ sanitize_url_for_logs url) e

  module _ (client : Client urls) where
    unfoldable pub fetch_limited : urls.Url → Result Error (List ℕ)
    fetch_limited url = do
      response ← map_err (send_failure url) (client.send url)
      guard response.is_success (status_failure url response.status)
      check_content_length response.content_length
      buffer ← map_err (body_failure url) (response.read_up_to (max_policy_bytes + 1))
      guard (not (ltb max_policy_bytes (length buffer))) body_too_long
      ok buffer
