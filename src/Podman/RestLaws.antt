-- ===== src/Podman/RestLaws.antt =====
-- internal/podman/podman.go: what the client relies on in Podman's REST API, and the steps that
-- its calls share.
use home_server_deployer.Prelude.{
  subst, ℕ, ◌<◌, String, ◌<>◌, ◌≡◌, refl, ◌∙◌, ◌⊎◌, inl, inr, Bool, true, false, not, none, some,
  List, [], ◌==◌, str_eq, Bool-cases, ==_iff, arith, if◌then◌else◌,
}
use home_server_deployer.Text.Utf8.{byte_len}
use home_server_deployer.Text.Escape.{path_escape}
use home_server_deployer.Error.{Error}
use home_server_deployer.Act.{Result, ok, err, pure, raise, lift, branch, attempt, ◌>>=◌}
use home_server_deployer.Act.Rules.{Quiet, Quiet-attempt, attempt_rule, if_rule}
use home_server_deployer.Engine.Sources.{Sources, assign}
use home_server_deployer.Podman.Http.{Request, Response, VersionResponse, Http}
use home_server_deployer.Podman.Client.{
  Client, Call, send_request, request_ok, keep_version, ask_version, ensure_version, api_of,
  engine_component, require_name, require_ok, http_error, decoded_version,
}
use home_server_deployer.Podman.Containers.{answered, is_answered}

-- The requests for Quadlets, as the API's documentation writes them.
abbrev pub file_request : String → String → String → Request
file_request base api name = record {
  method = "GET";
  url = base <> (("/v" <> (api <> ("/libpod/quadlets/" <> (path_escape name <> "/file")))));
  content_type = "";
  body = "";
}

abbrev pub create_request : String → String → String → Request
create_request base api archive = record {
  method = "POST";
  url = base <> (("/v" <> (api <> "/libpod/quadlets")) <> ("?" <> "reload-systemd=false"));
  content_type = "application/x-tar";
  body = archive;
}

abbrev pub delete_options : Bool → String
delete_options force =
    if force
    then "force=true&ignore=false&reload-systemd=false"
    else "ignore=false&reload-systemd=false"

abbrev pub delete_request : String → String → String → Bool → Request
delete_request base api name force = record {
  method = "DELETE";
  url =
      base
      <> (("/v" <> (api <> ("/libpod/quadlets/" <> path_escape name)))
          <> ("?" <> delete_options force));
  content_type = "";
  body = "";
}

-- Podman's API on the Quadlet sources of the host, and io.ReadAll on a limited reader. Reading
-- requests change none; a creation takes one file out of its archive, and is refused if there is a
-- file of that name; an answer other than 200 means that nothing changed. Of a request that gets no
-- answer nothing is known.
pub record ServesQuadlets {W : Type 0} (http : Http W) (base : String) (source : W → Sources)
    : Type 0 where
  pub quiet_reads : (r : Request) → r.method ≡ "GET" → Quiet source (http.send r)
  pub file :
      (api name : String) (w : W) (resp : Response)
      → (http.send (file_request base api name) w).0 ≡ ok resp
      → resp.status_code ≡ 200
      → source w name ≡ some resp.body
  pub created :
      (api name content archive : String) (w : W)
      → http.tar_file name 0o644 content ≡ ok archive
      → is_answered (answered (http.send (create_request base api archive) w).0) ≡ true
      → (source w name ≡ none)
        × (source (http.send (create_request base api archive) w).1
            ≡ assign name (some content) (source w))
  pub not_created :
      (api archive : String) (w : W) (resp : Response)
      → (http.send (create_request base api archive) w).0 ≡ ok resp
      → (resp.status_code == 200) ≡ false
      → source (http.send (create_request base api archive) w).1 ≡ source w
  pub deleted :
      (api name : String) (force : Bool) (w : W)
      → is_answered (answered (http.send (delete_request base api name force) w).0) ≡ true
      → source (http.send (delete_request base api name force) w).1 ≡ assign name none (source w)
  pub not_deleted :
      (api name : String) (force : Bool) (w : W) (resp : Response)
      → (http.send (delete_request base api name force) w).0 ≡ ok resp
      → (resp.status_code == 200) ≡ false
      → source (http.send (delete_request base api name force) w).1 ≡ source w
  -- A text that is shorter than the limit was read to its end.
  pub read_whole :
      (limit : ℕ) (body text : String)
      → http.read_limited limit body ≡ (text, none)
      → byte_len text < limit
      → text ≡ body

module _ {W : Type 0} (http : Http W) (base : String) where
  -- A request and the test on its status.
  pub request_ok_rule :
      (Q : Result Response × (Client × W) → Type 0) (method : String) (path : Client → String)
      (q : List (String × String)) (body content_type : String) (s : Client × W)
      → let sent = send_request http base method path q body content_type s in
        ((resp : Response)
          → sent.0 ≡ ok resp
          → is_answered (answered sent.0) ≡ true
          → resp.status_code ≡ 200
          → Q (ok resp, sent.1))
        → ((c : Error) → sent.0 ≡ err c → Q (err c, sent.1))
        → ((resp : Response)
            → sent.0 ≡ ok resp
            → (resp.status_code == 200) ≡ false
            → Q (err (http_error http base resp), sent.1))
        → Q (request_ok http base method path q body content_type s)
  unfolding request_ok attempt
  request_ok_rule Q method path q body content_type s good lost refused =
      go (send_request http base method path q body content_type s).0 good lost refused
    where
      s' : Client × W
      s' = (send_request http base method path q body content_type s).1

      go :
          (r : Result Response)
          → ((resp : Response)
              → r ≡ ok resp
              → is_answered (answered r) ≡ true
              → resp.status_code ≡ 200
              → Q (ok resp, s'))
          → ((c : Error) → r ≡ err c → Q (err c, s'))
          → ((resp : Response)
              → r ≡ ok resp
              → (resp.status_code == 200) ≡ false
              → Q (err (http_error http base resp), s'))
          → Q (branch raise (require_ok http base) r s')
      go (err c) good lost refused = lost c refl
      go (ok resp) good lost refused = elim (Bool-cases (resp.status_code == 200)) [
        | inl h ↦ rw h (good resp refl (rw h refl) ((==_iff resp.status_code 200).0 h))
        | inr h ↦ rw h (refused resp refl h)
      ]

  module _ (source : W → Sources) (serves : ServesQuadlets http base source) where
    -- A request that only reads.
    pub Quiet-request_ok :
        (path : Client → String) (q : List (String × String))
        → Quiet (λ (s : Client × W). source s.1) (request_ok http base "GET" path q "" "")
    unfolding send_request
    Quiet-request_ok path q s =
        request_ok_rule (λ r. source r.1.1 ≡ source s.1) "GET" path q "" "" s
          (λ _ _ _ _. serves.quiet_reads _ refl s.1) (λ _ _. serves.quiet_reads _ refl s.1)
          (λ _ _ _. serves.quiet_reads _ refl s.1)

    pub Quiet-ensure_version : Quiet (λ (s : Client × W). source s.1) (ensure_version http base)
    unfolding ensure_version ask_version keep_version
    Quiet-ensure_version s =
        if_rule (λ (r : Result VersionResponse × (Client × W)). source r.1.1 ≡ source s.1)
          (not (str_eq s.0.libpod_api "")) _ _ refl
          (Quiet-attempt view (request_ok http base "GET" (λ _. "/version") [] "" "") _ _
            (Quiet-request_ok (λ _. "/version") []) (λ _ _. refl)
            (λ resp.
              Quiet-attempt view (lift (decoded_version (http.decode_version resp.body))) _ _
                (λ _. refl) (λ _ _. refl) keeps)
            s)
      where
        view : Client × W → Sources
        view t = source t.1

        keeps : (vr : VersionResponse) → Quiet view (keep_version http base vr)
        keeps vr t =
            if_rule (λ (r : Result VersionResponse × (Client × W)). source r.1.1 ≡ source t.1)
              (str_eq (api_of (engine_component vr.components)) "") _ _ refl refl

    -- The error is that of a request which got no answer.
    abbrev pub Unanswered : Error → Type 0
    Unanswered c = (r : Request) × (w : W) × ((http.send r w).0 ≡ err c)

    -- How a call that may change one file ends.
    abbrev pub Ends : Sources → (Sources → Type 0) → Result (Unit {0}) × (Client × W) → Type 0
    Ends before Done r =
        ((r.0 ≡ ok tt) × Done (source r.1.1))
        ⊎ ((c : Error) × (r.0 ≡ err c) × ((source r.1.1 ≡ before) ⊎ Unanswered c))

    pub Ends-ok :
        (before : Sources) (Done : Sources → Type 0) (r : Result (Unit {0}) × (Client × W))
        → Ends before Done r
        → r.0 ≡ ok tt
        → Done (source r.1.1)
    Ends-ok before Done r (inl (_, done)) h = done
    Ends-ok before Done r (inr (c, failed, _)) h = cc

    pub Ends-err :
        (before : Sources) (Done : Sources → Type 0) (r : Result (Unit {0}) × (Client × W))
        (c : Error)
        → Ends before Done r
        → r.0 ≡ err c
        → (source r.1.1 ≡ before) ⊎ Unanswered c
    Ends-err before Done r c (inl (p, _)) h = cc
    Ends-err before Done r c (inr (d, failed, kept)) h =
        let e : d ≡ c = cc in subst (λ x. (source r.1.1 ≡ before) ⊎ Unanswered x) e kept

    -- A step before it that changes nothing.
    pub Ends-after :
        {A : Type 0} (before : Sources) (Done : Sources → Type 0) (m : Call http base A)
        (f : A → Call http base (Unit {0}))
        → Quiet (λ (t : Client × W). source t.1) m
        → (t : Client × W)
        → ((a : A)
            → (m t).0 ≡ ok a
            → (u : Client × W) → source u.1 ≡ before
            → Ends before Done (f a u))
        → source t.1 ≡ before
        → Ends before Done ((m >>= f) t)
    Ends-after before Done m f quiet t good h =
        attempt_rule (Ends before Done) m raise f t (λ a p. good a p (m t).1 (quiet t ∙ h))
          (λ c _. inr (c, refl, inl (quiet t ∙ h)))

    pub Quiet-require_name :
        (name : String) → Quiet (λ (t : Client × W). source t.1) (require_name http base name)
    Quiet-require_name name t = ground arith

    -- The tests that come before it.
    pub Ends-named :
        (before : Sources) (Done : Sources → Type 0) (name : String)
        (next : Call http base (Unit {0}))
        → ((u : Client × W) → source u.1 ≡ before → Ends before Done (next u))
        → (t : Client × W) → source t.1 ≡ before
        → Ends before Done
            ((require_name http base name >>= λ _. ensure_version http base >>= λ _. next) t)
    Ends-named before Done name next good t h =
        Ends-after before Done (require_name http base name) _ (Quiet-require_name name) t
          (λ _ _ u.
            Ends-after before Done (ensure_version http base) _ Quiet-ensure_version u
              (λ _ _ v. good v))
          h

    -- The request itself.
    pub Ends-request :
        (before : Sources) (Done : Sources → Type 0) (method : String) (path : Client → String)
        (q : List (String × String)) (body content_type : String) (s : Client × W)
        → let sent = send_request http base method path q body content_type s in
          (is_answered (answered sent.0) ≡ true → Done (source sent.1.1))
          → ((resp : Response)
              → sent.0 ≡ ok resp
              → (resp.status_code == 200) ≡ false
              → source sent.1.1 ≡ before)
          → Ends before Done
              ((request_ok http base method path q body content_type >>= λ _. pure tt) s)
    unfolding attempt send_request
    Ends-request before Done method path q body content_type s good bad =
        request_ok_rule (λ r. Ends before Done (branch raise (λ _. pure tt) r.0 r.1)) method path q
          body content_type s (λ _ _ h _. inl (refl, good h))
          (λ c lost. inr (c, refl, inr (_, s.1, lost)))
          (λ resp h k. inr (http_error http base resp, refl, inl (bad resp h k)))
