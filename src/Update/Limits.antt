-- ===== src/Update/Limits.antt =====
-- About `fetch_limited` (network.rs).
use secure_sudoers_setup.Base.{
  ℕ, ◌+◌, ◌≤◌, true, not, ltb, List, Option, none, some, Result, ok, ◌≡◌, refl, ◌↔◌, arith,
  >>=-eq-ok, map_err-eq-ok, map_err, ap, ◌∙◌, length,
}
use secure_sudoers_setup.Error.{Error}
use secure_sudoers_setup.Models.Validate.{guard}
use secure_sudoers_setup.Models.Ready.{guard-eq-ok}
use secure_sudoers_setup.Update.Fetch.{
  Urls, Client, Response, max_policy_bytes, check_content_length, fetch_limited, send_failure,
  status_failure, body_failure, body_too_long,
}

module _ (urls : Urls) (client : Client urls) (url : urls.Url) where
  -- What the server has answered, within the limit.
  pub record IsFetched (bytes : List ℕ) : Type 0 where
    pub response : Response
    pub sent : client.send url ≡ ok response
    pub success : response.is_success ≡ true
    pub announced : (n : ℕ) → response.content_length ≡ some n → n ≤ max_policy_bytes
    pub read : response.read_up_to (max_policy_bytes + 1) ≡ ok bytes
    pub limited : length bytes ≤ max_policy_bytes

  not-ltb : (a b : ℕ) → not (ltb a b) ≡ true → b ≤ a
  not-ltb a b h = ground arith

  ltb-not : (a b : ℕ) → b ≤ a → not (ltb a b) ≡ true
  ltb-not a b h = ground arith

  announced-le :
      (o : Option ℕ) → check_content_length o ≡ ok tt → (n : ℕ) → o ≡ some n → n ≤ max_policy_bytes
  announced-le none h n e = absurd cc
  announced-le (some m) h n e =
      let same : m ≡ n = cc in rw (← same) (not-ltb max_policy_bytes m (guard-eq-ok _ _ h))

  check-announced :
      (o : Option ℕ)
      → ((n : ℕ) → o ≡ some n → n ≤ max_policy_bytes)
      → check_content_length o ≡ ok tt
  check-announced none h = refl
  check-announced (some m) h = rw (ltb-not max_policy_bytes m (h m refl)) refl

  -- `fetch_limited` gives bytes exactly when the server answers with success, announces no more than
  -- the limit of one mebibyte, if it announces a length at all, and these bytes are what it sends,
  -- and no more than the limit.
  pub fetch_limited_iff :
      (bytes : List ℕ) → (fetch_limited urls client url ≡ ok bytes) ↔ IsFetched bytes
  unfolding fetch_limited
  fetch_limited_iff bytes = (forth, back)
    where
      the_bytes : (b : List ℕ) → ◌≡◌ {A = Result Error (List ℕ)} (ok b) (ok bytes) → b ≡ bytes
      the_bytes b h = cc

      forth : fetch_limited urls client url ≡ ok bytes → IsFetched bytes
      forth h =
          let (response, sent, h1) =
            >>=-eq-ok (map_err (send_failure urls url) (client.send url)) _ h in
          let (done, success, h2) =
            >>=-eq-ok (guard response.is_success (status_failure urls url response.status)) _ h1 in
          let (also, announced, h3) =
            >>=-eq-ok (check_content_length response.content_length) _ h2 in
          let (buffer, read, h4) =
            >>=-eq-ok (map_err (body_failure urls url) (response.read_up_to (max_policy_bytes + 1)))
              _ h3 in
          let (last, limited, kept) =
            >>=-eq-ok (guard (not (ltb max_policy_bytes (length buffer))) body_too_long) _ h4 in
          let same : buffer ≡ bytes = the_bytes buffer kept in
          record {
            response = response;
            sent = map_err-eq-ok _ (client.send url) sent;
            success = guard-eq-ok _ _ success;
            announced = announced-le response.content_length announced;
            read = map_err-eq-ok _ (response.read_up_to (max_policy_bytes + 1)) read ∙ ap ok same;
            limited =
                rw (← same) (not-ltb max_policy_bytes (length buffer) (guard-eq-ok _ _ limited));
          }

      back : IsFetched bytes → fetch_limited urls client url ≡ ok bytes
      back f =
          rw
            (
              f.sent,
              f.success,
              check-announced f.response.content_length f.announced,
              f.read,
              ltb-not max_policy_bytes (length bytes) f.limited,
              fetch_limited,
            )
            refl
