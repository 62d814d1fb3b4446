-- ===== src/Server/Handling/Restoring.antt =====
-- The count of the requests in flight comes back to what it was.
use vomero_sandbox.Common.{
  ℕ, ◌≡◌, refl, ap, ◌∙◌, inl, inr, ℤ, pos, ◌+ℤ◌, ◌-ℤ◌, codes, text_eq, Bool-cases, arith,
}
use vomero_sandbox.Errors.{Exc, Outcome, ok, raise, is_exception}
use vomero_sandbox.Json.{Json}
use vomero_sandbox.Server.Jobs.{JobResult}
use vomero_sandbox.Server.Handling.{
  Payload, Connection, Server, Runner, is_client_fault, admit, depart, in_pool, send, rescue,
  parse_request, run_request, send_result, serve_request, rescue_if, after_parse, do_post,
}

add_sub : (a : ℤ) → (a +ℤ pos 1) -ℤ pos 1 ≡ a
unfolding ◌+ℤ◌ ◌-ℤ◌
add_sub a = ground arith

-- The counters are as they were.
abbrev pub SameCounters : {W : Type 0} → Server W → Server W → Type 0
SameCounters s t = (t.seq ≡ s.seq) × (t.active ≡ s.active)

module _ {W : Type 0} (k : Connection W) where
  pub send-SameCounters :
      (code : ℕ) (p : Payload) (s : Server W) → SameCounters s (send k code p s).1
  unfolding send
  send-SameCounters code p s = (refl, refl)

  pub rescue-SameCounters : (e : Exc) (s : Server W) → SameCounters s (rescue k e s).1
  unfolding rescue
  rescue-SameCounters e s = elim (Bool-cases (is_client_fault e)) [
    | inl f ↦ rw f (send-SameCounters 400 (Payload.failed e) s)
    | inr f ↦ elim (Bool-cases (is_exception e)) [
      | inl x ↦ rw (f, x) (send-SameCounters 500 (Payload.failed e) s)
      | inr x ↦ rw (f, x) (refl, refl)
    ]
  ]

  module _ (run : Runner W) where
    pub rescue_if-SameCounters :
        (r : Outcome (Unit {0})) (s : Server W) → SameCounters s (rescue_if k run r s).1
    rescue_if-SameCounters (ok _) s = (refl, refl)
    rescue_if-SameCounters (raise e) s = rescue-SameCounters e s

    send_result-SameCounters :
        (r : Outcome JobResult) (s : Server W) → SameCounters s (send_result k run r s).1
    send_result-SameCounters (ok x) s = send-SameCounters 200 (Payload.result x) s
    send_result-SameCounters (raise e) s = (refl, refl)

    pub serve-SameCounters :
        (req name : Json) (s : Server W) → SameCounters s (serve_request k run req name s).1
    unfolding serve_request in_pool
    serve-SameCounters req name s = send_result-SameCounters (run_request k run req name s.pool).0 _

    after_parse-active :
        (r : Outcome (Json × Json)) (s : Server W) → (after_parse k run r s).1.active ≡ s.active
    unfolding admit depart
    after_parse-active (raise e) s = (rescue-SameCounters e s).1
    after_parse-active (ok (req, name)) s =
        let served = serve_request k run req name (admit s) in
        let kept = serve-SameCounters req name (admit s) in
        let settled = rescue_if-SameCounters served.0 served.1 in
        ap (λ a. a -ℤ pos 1) (settled.1 ∙ kept.1) ∙ add_sub s.active

    -- However a request ends, be it by an exception or an interrupt in reading it, in the runner or in
    -- writing an answer, the count of requests in flight is what it was before, if no other request is
    -- counted meanwhile.
    pub active_restored : (s : Server W) → (do_post k run s).1.active ≡ s.active
    unfolding do_post
    active_restored s = elim (Bool-cases (text_eq k.path (codes "/run"))) [
      | inl e ↦
          let parsed = in_pool (parse_request k) s in rw e (after_parse-active parsed.0 parsed.1)
      | inr e ↦ rw e (send-SameCounters 404 Payload.not_found s).1
    ]
