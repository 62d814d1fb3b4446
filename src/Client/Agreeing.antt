-- ===== src/Client/Agreeing.antt =====
-- The load generator and the job server agree.
use vomero_sandbox.Common.{
  Bool, false, subst, ℕ, ◌≡◌, ◌↔◌, inl, inr, refl, sym, ap, ◌∙◌, true, ◌∷◌, Text, codes, text_eq,
  Bool-cases, arith,
}
use vomero_sandbox.Errors.{Exc, Outcome, ok, raise, is_calm, is_exception}
use vomero_sandbox.Json.{Json, find_field}
use vomero_sandbox.Paths.Normal.{IsPlain}
use vomero_sandbox.Server.Jobs.{JobResult, job_json}
use vomero_sandbox.Server.Handling.{
  Payload, Connection, Server, Runner, parse_request, do_post, item, formatted,
}
use vomero_sandbox.Server.Handling.Answering.{Tells, Told, status, post_answers}
use vomero_sandbox.Client.{make_payload, chosen_package, truth, fire_one, reply_of}

-- Whatever the arguments, a request of the load generator names a package that the job server does
-- not refuse as a name.
pub payload_named :
    (dumps : Json → Text) (package_name : Text) (size index : ℕ)
    → (name : Text) × (item (make_payload dumps package_name size index) (codes "package")
        ≡ ok (Json.str name))
      × (formatted (Json.str name) ≡ ok tt)
      × IsPlain name
unfolding make_payload item find_field text_eq formatted
payload_named dumps package_name size index =
    elim (Bool-cases (text_eq (chosen_package package_name index) (codes "stats"))) [
      | inl e ↦ (codes "stats", rw e refl, refl, (refl, ground arith, refl, refl))
      | inr e ↦ (codes "wordcount", rw e refl, refl, (refl, ground arith, refl, refl))
    ]

module _ {W : Type 0} (k : Connection W) (run : Runner W) where
  -- The answer to a request at the server `s` is the result of a run that was ok.
  abbrev pub IsGood : Server W → Payload → Type 0
  IsGood s p =
      (x : JobResult) × (p ≡ Payload.result x)
      × (x.run_ok ≡ true)
      × Tells run (parse_request k s.pool).0 (parse_request k s.pool).1 (ok x)

  result_judged : (x : JobResult) → (fire_one (reply_of true 200 (Payload.result x))).0 ≡ x.run_ok
  unfolding fire_one reply_of job_json find_field text_eq truth
  result_judged x = refl

  result-IsGood :
      (s : Server W) (arrives : Bool) (x : JobResult)
      → Tells run (parse_request k s.pool).0 (parse_request k s.pool).1 (ok x)
      → ((fire_one (reply_of arrives 200 (Payload.result x))).0 ≡ true)
        ↔ ((arrives ≡ true) × IsGood s (Payload.result x))
  unfolding fire_one reply_of
  result-IsGood s false x tells = (λ g. absurd (cc), λ (f, _). absurd (cc))
  result-IsGood s true x tells = (
    λ g. (refl, (x, refl, sym (result_judged x) ∙ g, tells)),
    λ (_, (y, same, good, _)).
        let alike : x ≡ y = cc in result_judged x ∙ ap (λ z. z.run_ok) alike ∙ good,
  )

  failed-IsGood :
      (s : Server W) (arrives : Bool) (code : ℕ) (e : Exc)
      → ((fire_one (reply_of arrives code (Payload.failed e))).0 ≡ true)
        ↔ ((arrives ≡ true) × IsGood s (Payload.failed e))
  unfolding fire_one reply_of
  failed-IsGood s false code e = (λ g. absurd (cc), λ (f, _). absurd (cc))
  failed-IsGood s true code e = (λ g. absurd (cc), λ (_, (y, same, good, _)). absurd (cc))

  -- An outcome that was told, as the client counts it.
  Told-counted :
      (s : Server W) (arrives : Bool) (o : Outcome JobResult) (r : Outcome (Unit {0}))
      (t : Server W)
      → is_calm r ≡ true
      → Tells run (parse_request k s.pool).0 (parse_request k s.pool).1 o
      → Told o s.answers r t
      → (code : ℕ) × (p : Payload) × (t.answers ≡ (code, p) ∷ s.answers)
        × (((fire_one (reply_of arrives code p)).0 ≡ true) ↔ ((arrives ≡ true) × IsGood s p))
  Told-counted s arrives (ok x) r t calm tells (done, told) =
      (200, Payload.result x, told, result-IsGood s arrives x tells)
  Told-counted s arrives (raise e) r t calm tells (inl (f, done, told)) =
      (status e, Payload.failed e, told, failed-IsGood s arrives (status e) e)
  Told-counted s arrives (raise e) r t calm tells (inr (f, passed, told)) =
      let same : is_exception e ≡ true = subst (λ z. is_calm z ≡ true) passed calm in absurd (cc)

  -- Where answers can be written, a request that nothing interrupts gets one answer; and whether or not
  -- the answer arrives before the client's timeout, the load generator counts the request as ok exactly
  -- if it does and is the result of a run that was ok.
  pub counted_ok :
      ((code : ℕ) (p : Payload) (w : W) → (k.write code p w).0 ≡ ok tt)
      → text_eq k.path (codes "/run") ≡ true
      → (arrives : Bool) (s : Server W) → is_calm (do_post k run s).0 ≡ true
      → (code : ℕ) × (p : Payload) × ((do_post k run s).1.answers ≡ (code, p) ∷ s.answers)
        × (((fire_one (reply_of arrives code p)).0 ≡ true) ↔ ((arrives ≡ true) × IsGood s p))
  counted_ok writes path arrives s calm =
      let (o, tells, told) = post_answers k run writes path s in
      Told-counted s arrives o (do_post k run s).0 (do_post k run s).1 calm tells told
