-- ===== src/Api/Laws.antt =====
-- internal/api/server.go: what a request can change, and what an answer says.
use home_server_deployer.Prelude.{
  ℕ, ◌≤◌, String, ◌≡◌, refl, ◌⊎◌, inl, inr, Bool, true, false, Option, none, some, str_eq, arith,
  Bool-cases, Option-cases,
}
use home_server_deployer.Prelude.Int.{ℤ, pos, negsuc}
use home_server_deployer.Strconv.{atoi}
use home_server_deployer.Error.{Error, tail_range}
use home_server_deployer.Error.Message.{error_text}
use home_server_deployer.Podman.Client.{tail_lines}
use home_server_deployer.Podman.CallLaws.{tail_lines_bounds}
use home_server_deployer.Engine.{Engine}
use home_server_deployer.Engine.Execute.{Outcome, execute_plan}
use home_server_deployer.Engine.Queries.{logs}
use home_server_deployer.Engine.Sources.{Sources, LeavesSources}
use home_server_deployer.Engine.CompletionLaws.{Completed, execute_plan-Completed}
use home_server_deployer.Api.Status.{status_for}
use home_server_deployer.Api.Routes.{Route, post_execute, get_logs}
use home_server_deployer.Api.Server.{
  ApiRequest, of_logs, Decoder, write_json, write_error, refusal, respond, respond_with, executed,
  logged_with, tail_within, tail_of, handle,
}

-- The request is not one to carry out a plan.
abbrev pub is_execution : Option Route → Bool
is_execution (some (post_execute _)) = true
is_execution _ = false

module _ {W : Type 0} (e : Engine W) (d : Decoder) where
  open e use {state}

  tail_within-bounds : (z : Option ℤ) (n : ℕ) → tail_within z ≡ some n → (1 ≤ n) × (n ≤ 5000)
  tail_within-bounds none n h = cc
  tail_within-bounds (some (negsuc m)) n h = cc
  tail_within-bounds (some (pos m)) n h = (ground arith, ground arith)

  of_default : (n : ℕ) → some 200 ≡ some n → (1 ≤ n) × (n ≤ 5000)
  of_default n h = (ground arith, ground arith)

  tail_of-bounds : (text : String) (n : ℕ) → tail_of text ≡ some n → (1 ≤ n) × (n ≤ 5000)
  unfolding tail_of
  tail_of-bounds text n h = elim (Bool-cases (str_eq text "")) [
    | inl empty ↦ of_default n (rw empty at h)
    | inr given ↦ tail_within-bounds (atoi text) n (rw given at h)
  ]

  -- A request for logs is either answered with 400 and without a call of the engine, or the
  -- engine is asked for a number of lines from 1 to 5000, which the Podman client then does not
  -- change.
  pub get_logs-tail :
      (id : String) (q : ApiRequest) (w : W)
      → (handle e d (get_logs id) q w ≡ (write_error e d 400 tail_range, w))
        ⊎ ((n : ℕ) × (handle e d (get_logs id) q w ≡ respond_with e d of_logs (logs e id n w))
            × (1 ≤ n)
            × (n ≤ 5000)
            × (tail_lines n ≡ n))
  unfolding handle
  get_logs-tail id q w = go (tail_of q.tail) refl
    where
      go :
          (o : Option ℕ)
          → tail_of q.tail ≡ o
          → (logged_with e d o id w ≡ (write_error e d 400 tail_range, w))
            ⊎ ((n : ℕ) × (logged_with e d o id w ≡ respond_with e d of_logs (logs e id n w))
                × (1 ≤ n)
                × (n ≤ 5000)
                × (tail_lines n ≡ n))
      go none h = inl refl
      go (some n) h =
          let (low, high) = tail_of-bounds q.tail n h in
          inr (n, refl, low, high, (tail_lines_bounds n).2 low high)

module _ {W : Type 0} (e : Engine W) (d : Decoder) (source : W → Sources)
    (leaves : LeavesSources e source) where
  open e use {state}

  status_for-ne : (text : String) → status_for text ≡ 200 → ⊥
  unfolding status_for
  status_for-ne text h = ground arith

  failed-status :
      (o : Outcome × W) (c : Error) → o.0.error ≡ some c → (executed e d o).0.status ≡ 200 → ⊥
  unfolding respond refusal write_error write_json
  failed-status o c failed h = status_for-ne (error_text e.platform.quote c) (rw failed at h)

  -- If the API answers a request to execute a plan with 200, the stored plan was carried out in
  -- full on the Quadlet sources.
  pub post_execute-Completed :
      (id : String) (q : ApiRequest) (w : W)
      → (handle e d (post_execute id) q w).0.status ≡ 200
      → Completed e source leaves
          (state.get_plan id w).0
          (state.get_plan id w).1
          (source w)
          (handle e d (post_execute id) q w).1
  unfolding handle
  post_execute-Completed id q w h = elim (Option-cases (execute_plan e id w).0.error) [
    | inl done ↦ execute_plan-Completed e source leaves id w done
    | inr (c, failed) ↦ elim (failed-status (execute_plan e id w) c failed h) [ ]
  ]
