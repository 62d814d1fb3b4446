-- ===== src/Server/Handling/Answering.antt =====
-- The job server's answers: one for each request.
use vomero_sandbox.Common.{
  ◌∙◌, subst, sym, Text, is_empty, ℕ, ◌≡◌, refl, ◌⊎◌, inl, inr, true, false, List, ◌∷◌, pos, codes,
  text_eq, Bool-cases, if◌then◌else◌, arith,
}
use vomero_sandbox.Errors.{Exc, Outcome, ok, raise, is_exception}
use vomero_sandbox.Json.{Json, Fields, end, get}
use vomero_sandbox.Pool.State.{M, State, call, lift, pure, then_with}
use vomero_sandbox.Server.Jobs.{JobResult}
use vomero_sandbox.Server.Handling.{
  Payload, Connection, Server, Runner, is_client_fault, admit, depart, in_pool, send, rescue,
  parse_request, item, body_length, run_request, formatted, send_result, serve_request, rescue_if,
  after_parse, do_post,
}

lifted :
    {W A B : Type 0} (r : Outcome A) (f : A → M W B) (s : State W) (b : B)
    → (then_with f r s).0 ≡ ok b
    → (a : A) × (r ≡ ok a) × ((f a s).0 ≡ ok b)
lifted (ok a) f s b e = (a, refl, e)
lifted (raise x) f s b e = absurd (cc)

item-obj : (req name : Json) (k : Text) → item req k ≡ ok name → (d : Fields) × (req ≡ Json.obj d)
unfolding item
item-obj (Json.obj d) name k e = (d, refl)
item-obj req name k e = absurd (ground arith)

client_fault-is_exception : (e : Exc) → is_client_fault e ≡ true → is_exception e ≡ true
unfolding is_client_fault
client_fault-is_exception Exc.key_error h = refl
client_fault-is_exception e h = ground arith

-- The status for an exception.
abbrev pub status : Exc → ℕ
status e = if is_client_fault e then 400 else 500

module _ {W : Type 0} where
  -- The outcome of a request that was read so: the exception of reading it, or of formatting the name of
  -- its package; else what the runner gives for the package and the fields of the body, from the pool
  -- as reading has left it.
  abbrev pub Tells : Runner W → Outcome (Json × Json) → State W → Outcome JobResult → Type 0
  Tells run (raise e) p o = o ≡ raise e
  Tells run (ok (req, name)) p o =
      ((e : Exc) × (formatted name ≡ raise e) × (o ≡ raise e))
      ⊎ ((files : Json) × (env : Json) × (timeout : Json) × (get req (codes "files") (Json.obj end)
            ≡ ok files)
          × (get req (codes "env") (Json.obj end) ≡ ok env)
          × (get req (codes "timeout_s") (Json.num (pos 10)) ≡ ok timeout)
          × (o ≡ (run name files env timeout p).0))

  -- How the handler ends for an outcome, and the answers that are written then.
  abbrev pub Told : Outcome JobResult → List (ℕ × Payload) → Outcome (Unit {0}) → Server W → Type 0
  Told (ok x) before r t = (r ≡ ok tt) × (t.answers ≡ (200, Payload.result x) ∷ before)
  Told (raise e) before r t =
      ((is_exception e ≡ true) × (r ≡ ok tt) × (t.answers ≡ (status e, Payload.failed e) ∷ before))
      ⊎ ((is_exception e ≡ false) × (r ≡ raise e) × (t.answers ≡ before))

module _ {W : Type 0} (k : Connection W) (run : Runner W) where
  formatted-Tells :
      (d : Fields) (name : Json) (p : State W) (q : Outcome (Unit {0}))
      → formatted name ≡ q
      → Tells run (ok (Json.obj d, name)) p (run_request k run (Json.obj d) name p).0
  unfolding run_request vomero_sandbox.Pool.State.◌>>=◌ get lift
  formatted-Tells d name p (ok _) e = inr (_, _, _, refl, refl, refl, rw e refl)
  formatted-Tells d name p (raise x) e = inl (x, e, rw e refl)

  read_obj :
      (p : State W) (req name : Json)
      → (parse_request k p).0 ≡ ok (req, name)
      → (d : Fields) × (req ≡ Json.obj d)
  unfolding parse_request vomero_sandbox.Pool.State.◌>>=◌ lift pure
  read_obj p req name e =
      let (n, l0, e0) = lifted (body_length k.content_length) _ p (req, name) e in
      let (raw, l1, e1) = lifted (call (k.read n) p).0 _ (call (k.read n) p).1 (req, name) e0 in
      let body = if is_empty raw then codes "{}" else raw in
      let (q, l2, e2) = lifted (k.loads body) _ (call (k.read n) p).1 (req, name) e1 in
      let (v, l3, e3) = lifted (item q (codes "package")) _ (call (k.read n) p).1 (req, name) e2 in
      let (d, o) = item-obj q v (codes "package") l3 in let same : q ≡ req = cc in (d, sym same ∙ o)

  module _ (writes : (code : ℕ) (p : Payload) (w : W) → (k.write code p w).0 ≡ ok tt) where
    send_done :
        (code : ℕ) (p : Payload) (s : Server W)
        → ((send k code p s).0 ≡ ok tt) × ((send k code p s).1.answers ≡ (code, p) ∷ s.answers)
    unfolding send call
    send_done code p s = let w = writes code p s.pool.world in (w, rw w refl)

    rescue-Told :
        (e : Exc) (s : Server W) → Told (raise e) s.answers (rescue k e s).0 (rescue k e s).1
    unfolding rescue
    rescue-Told e s = elim (Bool-cases (is_client_fault e)) [
      | inl f ↦
          let (done, told) = send_done 400 (Payload.failed e) s in
          rw f (inl (client_fault-is_exception e f, done, told))
      | inr f ↦ elim (Bool-cases (is_exception e)) [
        | inl x ↦
            let (done, told) = send_done 500 (Payload.failed e) s in
            rw (f, x) (inl (refl, done, told))
        | inr x ↦ rw (f, x) (inr (refl, refl, refl))
      ]
    ]

    sent :
        (before : List (ℕ × Payload)) (x : JobResult) (r : Outcome (Unit {0})) (t : Server W)
        → Told (ok x) before r t
        → Told (ok x) before (rescue_if k run r t).0 (rescue_if k run r t).1
    sent before x (ok _) t (done, told) = (refl, told)
    sent before x (raise e) t (done, told) = absurd (cc)

    -- A run whose outcome is `r`, and then the answer.
    answered :
        (r : Outcome JobResult) (s : Server W)
        → let (q, t) = send_result k run r s in
          let (q', u) = rescue_if k run q t in Told r s.answers q' u
    answered (ok x) s =
        let (q, t) = send k 200 (Payload.result x) s in
        sent s.answers x q t (send_done 200 (Payload.result x) s)
    answered (raise e) s = rescue-Told e s

    after_parse-Told :
        (r : Outcome (Json × Json)) (s : Server W)
        → ((req name : Json) → r ≡ ok (req, name) → (d : Fields) × (req ≡ Json.obj d))
        → (o : Outcome JobResult) × Tells run r s.pool o
          × Told o s.answers (after_parse k run r s).0 (after_parse k run r s).1
    unfolding serve_request in_pool admit depart
    after_parse-Told (raise e) s objs = (raise e, refl, rescue-Told e s)
    after_parse-Told (ok (req, name)) s objs =
        let (d, e) = objs req name refl in
        let o = (run_request k run req name s.pool).0 in
        (
          o,
          subst (λ a. Tells run (ok (a, name)) s.pool (run_request k run a name s.pool).0) (sym e)
              (formatted-Tells d name s.pool (formatted name) refl),
          departed o _ (answered o _),
        )
      where
        departed :
            (o : Outcome JobResult) (q : Outcome (Unit {0}) × Server W)
            → Told o s.answers q.0 q.1
            → Told o s.answers q.0 (depart q.1)
        departed (ok x) q i = i
        departed (raise e) q i = i

    -- Where answers can be written, a request to run a job has an outcome: the exception of reading its
    -- body or of formatting the name of its package, or what the runner gives for the package and for
    -- the files, the variables and the timeout in the body. If that is a result, it is answered exactly
    -- once, with status 200 and the result; if it is an exception, once, with status 400 if it is a
    -- KeyError or a ValueError, else 500; and the handler returns. An interrupt passes on, and leaves
    -- the request without an answer.
    pub post_answers :
        text_eq k.path (codes "/run") ≡ true
        → (s : Server W)
        → (o : Outcome JobResult) × Tells run
            (parse_request k s.pool).0
            (parse_request k s.pool).1
            o
          × Told o s.answers (do_post k run s).0 (do_post k run s).1
    unfolding do_post in_pool
    post_answers e s = rw e (after_parse-Told (parse_request k s.pool).0 _ (read_obj s.pool))
