-- ===== src/Tests/Agents.antt =====
-- Two runs of an agent in the harness, with a small pickle.
use vomero_sandbox.Common.{
  ℕ, zero, suc, ◌≡◌, ◌∷◌, [], List, Text, codes, refl, ap, true, some, All, IsDict, ◌∙◌, sym, ◌==◌,
  if◌then◌else◌, assign, text_eq,
}
use vomero_sandbox.Errors.{ok, raise, Exc}
use vomero_sandbox.Harness.{
  Namespace, Slot, Python, Agent, with_stdlib_harness, prelude, epilogue, imported, keep, keep_item,
  keep_dumped, write_kept, after_agent, after_prelude,
}
use vomero_sandbox.Harness.Carrying.{Carries, variables_carried}

-- The characters of a name, each one up, before what follows it.
abbrev spell : Text → List ℕ → List ℕ
spell [] b = b
spell (c ∷ k) b = suc c ∷ spell k b

abbrev pickled : Namespace ℕ → List ℕ
pickled [] = []
pickled ((k, v) ∷ d) = spell k (0 ∷ v ∷ pickled d)

abbrev longer : ℕ → Namespace ℕ → Namespace ℕ
longer c [] = []
longer c ((k, v) ∷ d) = (c ∷ k, v) ∷ d

abbrev unpickled : List ℕ → Namespace ℕ
unpickled [] = []
unpickled (suc c ∷ b) = longer c (unpickled b)
unpickled (zero ∷ []) = []
unpickled (zero ∷ v ∷ b) = ([], v) ∷ unpickled b

unpickled-spell :
    (k : Text) (v : ℕ) (b : List ℕ) → unpickled (spell k (0 ∷ v ∷ b)) ≡ (k, v) ∷ unpickled b
unpickled-spell [] v b = refl
unpickled-spell (c ∷ k) v b = ap (longer c) (unpickled-spell k v b)

unpickled-pickled : (d : Namespace ℕ) → unpickled (pickled d) ≡ d
unpickled-pickled [] = refl
unpickled-pickled ((k, v) ∷ d) =
    unpickled-spell k v (pickled d) ∙ ap (λ e. (k, v) ∷ e) (unpickled-pickled d)

-- A variable is a number: 0 is a module, 1 a function, 2 an open file.
abbrev small_python : Python ℕ
small_python = record {
  imports = λ _. 0;
  text = λ _. 3;
  opened = λ _. 2;
  is_module = λ v. v == 0;
  callable = λ v. v == 1;
  dumps = λ v. if v == 2 then raise Exc.type_error else ok [];
  dump = λ d. (pickled d, ok tt);
  load = λ b. ok (some (unpickled b));
}

loads_back :
    (d : Namespace ℕ) (b : List ℕ)
    → All (λ f. true ≡ true) d
    → small_python.dump d ≡ (b, ok tt)
    → small_python.load b ≡ ok (some d)
loads_back d b a e =
    ap (λ z. ok (some (unpickled z))) (sym (ap (λ z. z.0) e))
    ∙ ap (λ z. ok (some z)) (unpickled-pickled d)

abbrev left : Namespace ℕ
left = (codes "memo", 7) ∷ (codes "bump", 1) ∷ (codes "log", 2) ∷ (codes "_k", 9) ∷ []

abbrev an_agent : Agent ℕ
an_agent g s = (ok tt, left, s)

abbrev file : Slot
file = Slot.holds (pickled ((codes "memo", 7) ∷ []))

abbrev process : Namespace ℕ
process = (codes "__name__", 5) ∷ []

ended : with_stdlib_harness small_python an_agent process Slot.absent ≡ (ok tt, file)
unfolding with_stdlib_harness prelude imported after_prelude after_agent epilogue keep keep_item
    keep_dumped write_kept assign text_eq
ended = refl

left-IsDict : IsDict left
unfolding text_eq
left-IsDict = ((refl, (refl, (refl, tt))), ((refl, (refl, tt)), ((refl, tt), (tt, tt))))

variables_carried_example :
    Carries small_python
      (λ _. true)
      loads_back
      left
      process
      (codes "memo")
      (prelude small_python file process)
variables_carried_example =
    variables_carried small_python (λ _. true) loads_back an_agent process process left Slot.absent
      Slot.absent file (codes "memo") ended refl left-IsDict
      ((λ _. refl), ((λ _. refl), ((λ _. refl), ((λ _. refl), tt)))) refl
