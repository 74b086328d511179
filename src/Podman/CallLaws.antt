-- ===== src/Podman/CallLaws.antt =====
-- internal/podman/podman.go: the version cache, the paths of the requests, the list of containers
-- and the number of log lines.
use home_server_deployer.Prelude.{
  ℕ, ◌≤◌, String, ◌<>◌, ◌≡◌, refl, ◌⊎◌, inl, inr, false, List, [], ◌∷◌, str_eq, Bool-cases, arith,
}
use home_server_deployer.Text.{contains_any}
use home_server_deployer.Text.Escape.{path_escape}
use home_server_deployer.Text.Unescape.{path_unescape}
use home_server_deployer.Text.EscapeLaws.{path_unescape-path_escape, path_escape-contains_any}
use home_server_deployer.Error.{Error, no_libpod_version}
use home_server_deployer.Act.{Result, ok, err, lift, raise}
use home_server_deployer.Act.Rules.{attempt_rule}
use home_server_deployer.Podman.Http.{VersionResponse, Http}
use home_server_deployer.Podman.Client.{
  Client, libpod_path, file_path, removal_path, inspect_path, logs_path, cached_version, api_of,
  engine_component, request_ok, decoded_version, keep_version, ask_version, ensure_version,
  tail_lines, send_request, extended,
}
use home_server_deployer.Podman.RestLaws.{request_ok_rule}

-- A part of a path that stands for a text: it ends neither the segment nor the path, and a server
-- reads the text in it.
abbrev pub IsSegmentOf : String → String → Type 0
IsSegmentOf name segment =
    (contains_any segment (b'/' ∷ b'?' ∷ b'#' ∷ []) ≡ false) × (path_unescape segment ≡ name)

-- The requests for one Quadlet or one container, of whatever name or ID, have a path of the
-- client's libpod version in which the name is one segment: it holds no slash, question mark or
-- hash, and decoding its percent signs and UTF-8 gives back the name.
pub paths-IsSegmentOf :
    (name : String) (c : Client)
    → (segment : String) × IsSegmentOf name segment
      × (file_path name c ≡ libpod_path c ("/libpod/quadlets/" <> (segment <> "/file")))
      × (removal_path name c ≡ libpod_path c ("/libpod/quadlets/" <> segment))
      × (inspect_path name c ≡ libpod_path c ("/libpod/containers/" <> (segment <> "/json")))
      × (logs_path name c ≡ libpod_path c ("/libpod/containers/" <> (segment <> "/logs")))
unfolding file_path removal_path inspect_path logs_path
paths-IsSegmentOf name c = (
  path_escape name,
  (path_escape-contains_any name, path_unescape-path_escape name),
  refl,
  refl,
  refl,
  refl,
)

-- The number of lines that Logs asks for is at least 1 and at most 5000, and it is the caller's
-- number where that is within these bounds.
pub tail_lines_bounds :
    (tail : ℕ)
    → (1 ≤ tail_lines tail)
      × (tail_lines tail ≤ 5000)
      × ((1 ≤ tail) → (tail ≤ 5000) → tail_lines tail ≡ tail)
unfolding tail_lines
tail_lines_bounds tail = (ground arith, ground arith, λ h k. ground arith)

module _ {W : Type 0} (http : Http W) (base : String) where
  -- What `ensureVersion` leaves in the client.
  abbrev pub VersionKept : Client → Result VersionResponse × (Client × W) → Type 0
  VersionKept before r =
      (((c : Error) × (r.0 ≡ err c)) × (r.1.0 ≡ before))
      ⊎ ((vr : VersionResponse) × (r.0 ≡ ok vr)
          × (vr.version ≡ r.1.0.engine_version)
          × ((u : W)
              → ensure_version http base (r.1.0, u) ≡ (ok (cached_version r.1.0), (r.1.0, u))))

  cached :
      (c : Client) (u : W)
      → str_eq c.libpod_api "" ≡ false
      → ensure_version http base (c, u) ≡ (ok (cached_version c), (c, u))
  unfolding ensure_version
  cached c u h = rw h refl

  request_ok-client :
      (method : String) (path : Client → String) (q : List (String × String))
      (body content_type : String) (s : Client × W)
      → (request_ok http base method path q body content_type s).1.0 ≡ s.0
  unfolding send_request
  request_ok-client method path q body content_type s =
      request_ok_rule http base (λ r. r.1.0 ≡ s.0) method path q body content_type s
        (λ _ _ _ _. refl) (λ _ _. refl) (λ _ _ _. refl)

  kept :
      (before : Client) (vr : VersionResponse) (s : Client × W)
      → s.0 ≡ before
      → VersionKept before (keep_version http base vr s)
  unfolding keep_version
  kept before vr s h = elim (Bool-cases (str_eq (api_of (engine_component vr.components)) "")) [
    | inl empty ↦ rw empty (inl ((no_libpod_version, refl), h))
    | inr there ↦
        rw there
          (inr (extended (engine_component vr.components) vr, refl, refl, λ u. cached _ u there))
  ]

  asked : (s : Client × W) → VersionKept s.0 (ask_version http base s)
  unfolding ask_version
  asked s =
      attempt_rule (VersionKept s.0) (request_ok http base "GET" (λ _. "/version") [] "" "") raise _
        s
        (λ resp _.
          attempt_rule (VersionKept s.0) (lift (decoded_version (http.decode_version resp.body)))
            raise _ _ (λ vr _. kept s.0 vr _ same) (λ c _. inl ((c, refl), same)))
        (λ c _. inl ((c, refl), same))
    where
      same : (request_ok http base "GET" (λ _. "/version") [] "" "" s).1.0 ≡ s.0
      same = request_ok-client "GET" (λ _. "/version") [] "" "" s

  -- ensureVersion either returns an error and leaves the client as it was, or it returns the
  -- version that the client then holds, and from then on it answers from the client and sends no
  -- request.
  pub ensure_version-VersionKept : (s : Client × W) → VersionKept s.0 (ensure_version http base s)
  unfolding ensure_version ask_version keep_version
  ensure_version-VersionKept s = elim (Bool-cases (str_eq s.0.libpod_api "")) [
    | inl empty ↦ rw empty (asked s)
    | inr there ↦ rw there (inr (cached_version s.0, refl, refl, λ u. cached s.0 u there))
  ]
