-- ===== src/Tests/Codecs.antt =====
-- The configuration, the exec and the upload on concrete inputs.
use vomero_sandbox.Common.{
  ◌≡◌, refl, [], ◌∷◌, ◌++◌, pos, codes, text_eq, decimal, read_digits, ◌+ℤ◌, arith,
}
use vomero_sandbox.Errors.{Exc, ok, raise, ◌>>=◌}
use vomero_sandbox.Config.{default_config, validate, check_resources, parse_quantity}
use vomero_sandbox.Exec.{Response, exec_capture, exit_code}
use vomero_sandbox.Exec.Pumping.{all_out, all_err, captured}
use vomero_sandbox.Json.{to_int}
use vomero_sandbox.Upload.{frame, receive}
use vomero_sandbox.Upload.Framing.{receive-frame}
use vomero_sandbox.Tests.Toy.{hello}

mebibytes : parse_quantity (codes " 1.5e1Mi ") ≡ ok (record { num = 157286400; den = 10 })
unfolding parse_quantity read_digits text_eq
mebibytes = refl

received : receive (frame (codes "{hello}")) ≡ ok (codes "{hello}")
unfolding receive frame decimal to_int
received = refl

pub default_valid : validate default_config ≡ ok []
unfolding validate check_resources parse_quantity read_digits text_eq
default_valid = refl

receive-frame_example : receive (frame (codes "{}") ++ codes "more") ≡ ok (codes "{}")
receive-frame_example = receive-frame (codes "{}") (codes "more") (omega arith)

abbrev two_rounds : Response
two_rounds = record {
  opened_at = pos 0;
  rounds = hello ∷ record hello { now = pos 9; err = [] } ∷ [];
  status = [];
}

captured_example : exec_capture (λ s. raise Exc.value_error) two_rounds (pos 20) ≡ (
    exit_code (λ s. raise Exc.value_error) [] >>= λ code.
    ok (all_out two_rounds.rounds, all_err two_rounds.rounds, code))
unfolding ◌+ℤ◌
captured_example =
    captured (λ s. raise Exc.value_error) two_rounds (pos 20) ((refl, refl), ((refl, refl), tt))
