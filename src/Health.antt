-- ===== src/Health.antt =====
-- The health server (go-indexer/health/health.go): one status behind an HTTP endpoint, and what the end of
-- the server does to it.
use vault_indexer.Prelude.{
  Text, ℕ, ◌≡◌, ◌↔◌, refl, Bool-cases, ◌++◌, text, eq_text, eq_text→eq, eq_text_refl, if◌then◌else◌,
  inl, inr, arith,
}

pub record Server : Type 0 where
  pub port : ℕ
  pub status : Text
  pub label : Text

abbrev healthy : Text
healthy = text "healthy"

abbrev pub unhealthy : Text
unhealthy = text "unhealthy"

abbrev pub new_server : ℕ → Text → Server
new_server port label = record { port = port; status = healthy; label = label }

unfoldable pub set_status : Text → Server → Server
set_status status s = record { port = s.port; status = status; label = s.label }

abbrev get_status : Server → Text
get_status s = s.status

-- `{"status":"%s","service":"%s"}`
abbrev pub body : Server → Text
body s = text "{\"status\":\"" ++ s.status ++ text "\",\"service\":\"" ++ s.label ++ text "\"}"

-- The status code and the body of the answer.
unfoldable health_handler : Server → ℕ × Text
health_handler s = if eq_text s.status healthy then (200, body s) else (503, body s)

-- How `Serve` ends, which never returns nil: ErrServerClosed after Shutdown, or another error.
pub data ServeEnd : Type 0 where
  server_closed : ServeEnd
  broken : Text → ServeEnd

-- The goroutine of `Start`, once `Serve` has returned.
unfoldable pub served : ServeEnd → Server → Server
served server_closed s = set_status healthy s
served (broken e) s = set_status unhealthy s

-- `Stop` of go-indexer/indexer/indexer.go, as far as the health server: its status, and Shutdown, which
-- makes `Serve` return.
unfoldable pub stop : Server → Server
stop s = served server_closed (set_status unhealthy s)

-- The endpoint answers 200 exactly if the status is healthy.
health_handler_code : (s : Server) → ((health_handler s).0 ≡ 200) ↔ (s.status ≡ healthy)
unfolding health_handler
health_handler_code s = elim (Bool-cases (eq_text s.status healthy)) [
  | inl e ↦ (λ h. eq_text→eq s.status healthy e, λ h. rw (health_handler, e) refl)
  | inr e ↦ (λ h. absurd (ground arith), λ h. absurd (ground (arith, eq_text_refl healthy)))
]

-- The server is healthy again as soon as the indexer has stopped it.
stop-healthy : (s : Server) → (stop s).status ≡ healthy
unfolding stop served set_status
stop-healthy s = refl
