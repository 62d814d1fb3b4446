-- ===== src/Exec/Pumping.antt =====
-- `exec_stream` and `exec_capture` of src/vomero_sandbox/_exec.py over the rounds of a websocket.
use vomero_sandbox.Common.{
  ◌≡◌, refl, sym, ◌∙◌, ap, true, false, List, [], ◌∷◌, ◌++◌, ℤ, ◌+ℤ◌, ltb_ℤ, Text, All,
  append_assoc, append-nil, subst,
}
use vomero_sandbox.Errors.{Exc, Outcome, ok, raise, ◌>>=◌}
use vomero_sandbox.Json.{Json}
use vomero_sandbox.Models.{Channel, StreamChunk}
use vomero_sandbox.Exec.{
  Round, Response, chunk, chunks, joined, exit_code, pump, exec_stream, exec_capture,
}

-- A round that the loop passes: the clock is not past the deadline, and the update succeeds.
abbrev pub IsTimely : ℤ → Round → Type 0
IsTimely deadline r = (ltb_ℤ deadline r.now ≡ false) × (r.update ≡ ok tt)

abbrev pub all_chunks : List Round → List StreamChunk
all_chunks [] = []
all_chunks (r ∷ rs) = chunks r ++ all_chunks rs

-- All that has arrived on standard output, and on standard error.
abbrev pub all_out : List Round → Text
all_out [] = []
all_out (r ∷ rs) = r.out ++ all_out rs

abbrev pub all_err : List Round → Text
all_err [] = []
all_err (r ∷ rs) = r.err ++ all_err rs

joined_out-chunk :
    (o e : Text) (cs : List StreamChunk)
    → joined Channel.stdout ((chunk Channel.stdout o ++ chunk Channel.stderr e) ++ cs)
      ≡ o ++ joined Channel.stdout cs
joined_out-chunk [] [] cs = refl
joined_out-chunk [] (_ ∷ _) cs = refl
joined_out-chunk (_ ∷ _) [] cs = refl
joined_out-chunk (_ ∷ _) (_ ∷ _) cs = refl

joined_out-chunks :
    (r : Round) (cs : List StreamChunk)
    → joined Channel.stdout (chunks r ++ cs) ≡ r.out ++ joined Channel.stdout cs
joined_out-chunks r cs = joined_out-chunk r.out r.err cs

joined_err-chunk :
    (o e : Text) (cs : List StreamChunk)
    → joined Channel.stderr ((chunk Channel.stdout o ++ chunk Channel.stderr e) ++ cs)
      ≡ e ++ joined Channel.stderr cs
joined_err-chunk [] [] cs = refl
joined_err-chunk [] (_ ∷ _) cs = refl
joined_err-chunk (_ ∷ _) [] cs = refl
joined_err-chunk (_ ∷ _) (_ ∷ _) cs = refl

joined_err-chunks :
    (r : Round) (cs : List StreamChunk)
    → joined Channel.stderr (chunks r ++ cs) ≡ r.err ++ joined Channel.stderr cs
joined_err-chunks r cs = joined_err-chunk r.out r.err cs

joined_out : (rs : List Round) → joined Channel.stdout (all_chunks rs) ≡ all_out rs
joined_out [] = refl
joined_out (r ∷ rs) = joined_out-chunks r (all_chunks rs) ∙ ap (λ s. r.out ++ s) (joined_out rs)

joined_err : (rs : List Round) → joined Channel.stderr (all_chunks rs) ≡ all_err rs
joined_err [] = refl
joined_err (r ∷ rs) = joined_err-chunks r (all_chunks rs) ∙ ap (λ s. r.err ++ s) (joined_err rs)

module _ (loads : Text → Outcome Json) where
  pump-timely :
      (deadline : ℤ) (xs ys : List Round) (status : Text)
      → All (IsTimely deadline) xs
      → pump loads deadline (xs ++ ys) status ≡ record {
        yielded = all_chunks xs ++ (pump loads deadline ys status).yielded;
        result = (pump loads deadline ys status).result;
      }
  unfolding pump
  pump-timely deadline [] ys status t = refl
  pump-timely deadline (x ∷ xs) ys status ((a, b), t) = rw a (
      rw b (
        rw (pump-timely deadline xs ys status t) (
          ap (λ cs. record { yielded = cs; result = (pump loads deadline ys status).result })
            (sym
              (append_assoc (chunks x) (all_chunks xs) (pump loads deadline ys status).yielded)))))

  -- A command whose rounds are all in time, with updates that succeed, is captured whole: each
  -- channel's text in the order of its arrival, with the exit code that the error channel's status
  -- gives, or its exception.
  pub captured :
      (resp : Response) (timeout_s : ℤ)
      → All (IsTimely (resp.opened_at +ℤ timeout_s)) resp.rounds
      → exec_capture loads resp timeout_s ≡ (
          exit_code loads resp.status >>= λ code.
          ok (all_out resp.rounds, all_err resp.rounds, code))
  unfolding exec_capture exec_stream pump
  captured resp timeout_s t =
      let p = pump-timely (resp.opened_at +ℤ timeout_s) resp.rounds [] resp.status t in
      rw
        (subst
          (λ rs. pump loads (resp.opened_at +ℤ timeout_s) rs resp.status ≡ record {
            yielded = all_chunks resp.rounds ++ [];
            result = exit_code loads resp.status;
          })
          (append-nil resp.rounds) p)
        (rw (append-nil (all_chunks resp.rounds))
          (rw (joined_out resp.rounds) (rw (joined_err resp.rounds) refl)))

  -- A stream whose clock is past the deadline in some round, all earlier rounds being in time, ends
  -- there with the internal time-out, after exactly the chunks of the earlier rounds.
  pub cut_off :
      (resp : Response) (timeout_s : ℤ) (xs : List Round) (r : Round) (ys : List Round)
      → resp.rounds ≡ xs ++ r ∷ ys
      → All (IsTimely (resp.opened_at +ℤ timeout_s)) xs
      → ltb_ℤ (resp.opened_at +ℤ timeout_s) r.now ≡ true
      → exec_stream loads resp timeout_s
        ≡ record { yielded = all_chunks xs; result = raise Exc.exec_timeout }
  unfolding exec_stream pump
  cut_off resp timeout_s xs r ys e t late = rw e (
      rw (pump-timely (resp.opened_at +ℤ timeout_s) xs (r ∷ ys) resp.status t)
        (rw late (rw (append-nil (all_chunks xs)) refl)))
