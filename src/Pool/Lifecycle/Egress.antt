-- ===== src/Pool/Lifecycle/Egress.antt =====
-- `_ensure_network_policy` of src/vomero_sandbox/runner.py, with a reading of such a policy.
use vomero_sandbox.Common.{
  ℕ, ◌≡◌, refl, Bool, true, false, ◌&&◌, ◌||◌, ◌==◌, Option, none, some, List, [], ◌∷◌, Text, codes,
  text_eq, arith,
}
use vomero_sandbox.Config.{SandboxConfig}
use vomero_sandbox.Host.{EgressRule}
use vomero_sandbox.Pod.{build_worker_pod, given}
use vomero_sandbox.Pool.Lifecycle.{network_policy, proxy_rule}

-- How Kubernetes reads a policy with the type Egress: a pod that it selects by the label `app` may
-- open a connection if one of the rules has its destination and its port.
abbrev port_listed : Text → ℕ → List (Text × ℕ) → Bool
port_listed protocol port [] = false
port_listed protocol port ((q, n) ∷ ps) =
    text_eq q protocol && n == port || port_listed protocol port ps

abbrev destination_matches : Option Text → Text → Bool
destination_matches none app = true
destination_matches (some label) app = text_eq label app

abbrev pub permits : List EgressRule → Text → Text → ℕ → Bool
permits [] app protocol port = false
permits (r ∷ rs) app protocol port =
    destination_matches r.to_app app && port_listed protocol port r.ports
    || permits rs app protocol port

-- DNS, on either protocol.
abbrev pub is_dns : Text → ℕ → Bool
is_dns protocol port =
    (text_eq (codes "UDP") protocol || text_eq (codes "TCP") protocol) && 53 == port

abbrev pub proxy_given : Option Text → Bool
proxy_given none = false
proxy_given (some []) = false
proxy_given (some (_ ∷ _)) = true

abbrev dns_rule : EgressRule
dns_rule = record { to_app = none; ports = (codes "UDP", 53) ∷ (codes "TCP", 53) ∷ [] }

either : (u t p a b : Bool) → a ≡ b → (u && p || (t && p || false) || a) ≡ ((u || t) && p || b)
either true true p a b e = ground arith
either true false p a b e = ground arith
either false true p a b e = ground arith
either false false p a b e = ground arith

all_of : (a t p : Bool) → (a && (t && p || false) || false) ≡ (a && t && p)
all_of true true p = ground arith
all_of true false p = ground arith
all_of false t p = refl

dns_and :
    (label app protocol : Text) (port : ℕ) (a b : Bool)
    → a ≡ b
    → (text_eq (codes "UDP") protocol && 53 == port
        || (text_eq (codes "TCP") protocol && 53 == port || false)
        || a)
      ≡ (is_dns protocol port || b)
dns_and label app protocol port a b =
    either (text_eq (codes "UDP") protocol) (text_eq (codes "TCP") protocol) (53 == port) a b

egress_rules :
    (proxy : Option Text) (label app protocol : Text) (port : ℕ)
    → permits (dns_rule ∷ proxy_rule label (given proxy)) app protocol port ≡ (
        is_dns protocol port
        || (proxy_given proxy
            && text_eq label app
            && text_eq (codes "TCP") protocol
            && 3128 == port))
egress_rules none label app protocol port = dns_and label app protocol port _ _ refl
egress_rules (some []) label app protocol port = dns_and label app protocol port _ _ refl
egress_rules (some (_ ∷ _)) label app protocol port =
    dns_and label app protocol port _ _
      (all_of (text_eq label app) (text_eq (codes "TCP") protocol) (3128 == port))

-- The policy selects the label `app` of every worker's pod for its egress, and lets through DNS and,
-- if a proxy is configured and not the empty text, TCP to port 3128 of the pods that bear the
-- proxy's label; and nothing else.
pub egress_only :
    (c : SandboxConfig) (name app protocol : Text) (port : ℕ)
    → ((network_policy c).app ≡ (build_worker_pod c name).app)
      × ((network_policy c).policy_types ≡ codes "Egress" ∷ [])
      × (permits (network_policy c).egress app protocol port ≡ (
          is_dns protocol port
          || (proxy_given c.egress_proxy
              && text_eq c.egress_proxy_label app
              && text_eq (codes "TCP") protocol
              && 3128 == port)))
unfolding network_policy build_worker_pod
egress_only c name app protocol port =
    (refl, refl, egress_rules c.egress_proxy c.egress_proxy_label app protocol port)
