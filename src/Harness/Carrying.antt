-- ===== src/Harness/Carrying.antt =====
-- What the harness of examples/stateful_agent.py carries from a run to the next.
use vomero_sandbox.Common.{
  ◌≡◌, refl, ◌∙◌, sym, subst, ap, Bool, true, false, none, some, List, [], ℕ, All, Text, codes,
  assign, update, value, value-update, last_value-IsDict, or_else, IsDict, arith,
}
use vomero_sandbox.Errors.{Outcome, ok, raise}
use vomero_sandbox.Harness.{
  Namespace, Slot, Python, Agent, imported, bind_loaded, prelude, keep, write_kept, epilogue,
  after_agent, after_prelude, with_stdlib_harness,
}
use vomero_sandbox.Harness.Keeping.{
  is_private, StaysPlain, carried, private-value, imported-value, or_none, keep-value, keep-IsDict,
  last_kept-carried, keep-plain,
}

module _ {V : Type 0} (py : Python V) (plain : V → Bool)
    (loads : (ns : Namespace V) (b : List ℕ)
      → All (λ f. plain f.1 ≡ true) ns
      → py.dump ns ≡ (b, ok tt)
      → py.load b ≡ ok (some ns)) where
  -- What the next process has when it has read what was written.
  abbrev pub Carries : Namespace V → Namespace V → Text → Outcome (Unit {0}) × Namespace V → Type 0
  Carries g fresh k q =
      (q.0 ≡ ok tt) × (value k q.1 ≡ or_else (carried py (value k g)) (value k fresh))

  loaded-Carries :
      (g fresh kept : Namespace V) (b : List ℕ) (k : Text)
      → keep py g [] ≡ ok kept
      → py.dump kept ≡ (b, ok tt)
      → IsDict g
      → StaysPlain py plain g
      → is_private k ≡ false
      → Carries g fresh k (prelude py (Slot.holds b) fresh)
  unfolding prelude bind_loaded value
  loaded-Carries g fresh kept b k e w i p q =
      let back = loads kept b (keep-plain py plain g [] kept e p tt) w in
      let start = assign (codes "_f") (py.opened b) (imported py fresh) in
      let same : value k (update start kept) ≡ or_else (carried py (value k g)) (value k fresh) =
        value-update k start kept
        ∙ ap (λ o. or_else o (value k start))
            (last_value-IsDict k kept (keep-IsDict py g [] kept e tt)
              ∙ keep-value py k g [] kept q e
              ∙ ap (λ o. or_else o none) (last_kept-carried py k g i)
              ∙ or_none py (carried py (value k g)))
        ∙ ap (or_else (carried py (value k g)))
            (private-value py (codes "_f") k _ _ refl q ∙ imported-value py k fresh q) in
      rw back (refl, same)

  captured-Carries :
      (g fresh : Namespace V) (s t : Slot) (k : Text)
      → epilogue py g s ≡ (ok tt, t)
      → IsDict g
      → StaysPlain py plain g
      → is_private k ≡ false
      → Carries g fresh k (prelude py t fresh)
  unfolding epilogue write_kept
  captured-Carries g fresh s t k e i p q = of (keep py g []) s refl e
    where
      wrote :
          (kept : Namespace V) (b : List ℕ) (o : Outcome (Unit {0}))
          → keep py g [] ≡ ok kept
          → py.dump kept ≡ (b, o)
          → o ≡ ok tt
          → Slot.holds b ≡ t
          → Carries g fresh k (prelude py t fresh)
      wrote kept b o f w x y =
          subst (λ a. Carries g fresh k (prelude py a fresh)) y
            (loaded-Carries g fresh kept b k f (w ∙ ap (λ z. (b, z)) x) i p q)

      of :
          (o : Outcome (Namespace V)) (s : Slot)
          → keep py g [] ≡ o
          → (elim o [ ok kept ↦ write_kept py kept s | raise x ↦ (raise x, s) ]) ≡ (ok tt, t)
          → Carries g fresh k (prelude py t fresh)
      of (raise x) s f w = absurd (ground arith)
      of (ok kept) Slot.locked f w = absurd (ground arith)
      of (ok kept) Slot.absent f w =
          wrote kept (py.dump kept).0 (py.dump kept).1 f refl (ap (λ y. y.0) w) (ap (λ y. y.1) w)
      of (ok kept) (Slot.holds _) f w =
          wrote kept (py.dump kept).0 (py.dump kept).1 f refl (ap (λ y. y.0) w) (ap (λ y. y.1) w)

  -- If a run of an agent's code in the harness ends well and leaves the variables `g`, the next run
  -- restores without an exception: under each name that does not begin with an underscore, the code
  -- finds the value that was left there, if that is no module, not callable and pickle takes it, and
  -- else what the new process has. This holds where pickle loads what it has dumped if its values are
  -- plain, and the values of `g` that stay are.
  pub variables_carried :
      (agent : Agent V) (first fresh g : Namespace V) (s u t : Slot) (k : Text)
      → with_stdlib_harness py agent first s ≡ (ok tt, t)
      → agent (prelude py s first).1 s ≡ (ok tt, g, u)
      → IsDict g
      → StaysPlain py plain g
      → is_private k ≡ false
      → Carries g fresh k (prelude py t fresh)
  unfolding with_stdlib_harness after_prelude after_agent
  variables_carried agent first fresh g s u t k e a i p q = of (prelude py s first) e a
    where
      of :
          (r : Outcome (Unit {0}) × Namespace V)
          → after_prelude py agent s r ≡ (ok tt, t)
          → agent r.1 s ≡ (ok tt, g, u)
          → Carries g fresh k (prelude py t fresh)
      of (raise x, n) f b = absurd (ground arith)
      of (ok _, n) f b = captured-Carries g fresh u t k (sym (ap (after_agent py) b) ∙ f) i p q
