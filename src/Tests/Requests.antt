-- ===== src/Tests/Requests.antt =====
-- Requests to the job server, and messages to the consumers.
use vomero_sandbox.Common.{
  All, arith, false, ℕ, ◌+◌, ◌≡◌, ◌⊎◌, refl, Bool, some, [], ◌∷◌, Text, codes, text_eq,
}
use vomero_sandbox.Errors.{Outcome, ok}
use vomero_sandbox.Server.Jobs.{JobResult}
use vomero_sandbox.Config.{default_config}
use vomero_sandbox.Json.{Json, field, end}
use vomero_sandbox.Pool.State.{pure, pure}
use vomero_sandbox.Projects.{Node}
use vomero_sandbox.Server.Handling.{Connection, Server, Runner, make_server, parse_request, do_post}
use vomero_sandbox.Server.Handling.Answering.{Tells, Told, post_answers}
use vomero_sandbox.Server.Handling.Restoring.{active_restored}
use vomero_sandbox.Consumer
use vomero_sandbox.Consumer.{Message, Phase, Service, launched, task_done, serve_message}
use vomero_sandbox.Consumer.Stopping.{all_returned}
use vomero_sandbox.Consumer.Balance.{tally, held, any_message, delivered_once}
use vomero_sandbox.Tests.Toy.{toy, small_pool}
use vomero_sandbox.Tests.Serving.{answer, tree}

abbrev pub asked : Connection ℕ
asked = record {
  path = codes "/run";
  content_length = some (codes "2");
  read = λ n t. (ok (codes "{}"), t);
  loads = λ s. ok (Json.obj (field (codes "package") (Json.str (codes "stats")) end));
  write = λ code p t. (ok tt, t);
}

abbrev pub clerk : Runner ℕ
clerk name files env timeout = pure answer

abbrev pub desk : Server ℕ
desk = make_server small_pool

post_answers_example :
    (o : Outcome JobResult) × Tells clerk
      (parse_request asked desk.pool).0
      (parse_request asked desk.pool).1
      o
    × Told o desk.answers (do_post asked clerk desk).0 (do_post asked clerk desk).1
unfolding text_eq
post_answers_example = post_answers asked clerk (λ code p w. refl) refl desk

active_restored_example : (do_post asked clerk desk).1.active ≡ desk.active
active_restored_example = active_restored asked clerk desk

abbrev disk : Text → Node
disk _ = tree

-- One consumer, and its life from a sentinel to the end.
abbrev launched_one : Service ℕ
launched_one = launched 1 small_pool

abbrev told : Service ℕ
told = record launched_one {
  broker = Consumer.put Message.stop launched_one.broker;
  published = Message.stop ∷ [];
}

Reach-told : Consumer.Reach toy default_config [] disk launched_one told
unfolding launched
Reach-told = Consumer.next Consumer.here_is (Consumer.publishes Message.stop refl)

delivered_once_example :
    ((q : Message → Bool)
      → tally q told.published
        ≡ tally q told.finished + (tally q told.broker.items + held q told.consumers))
    × ((held any_message told.consumers ≡ 0) ⊎ ((task_done told.broker).0 ≡ ok tt))
delivered_once_example = delivered_once toy default_config [] disk 1 small_pool Reach-told

-- The consumer takes the sentinel, handles it, and acknowledges it.
abbrev in_hand : Service ℕ
in_hand = record told {
  broker = record told.broker { items = [] };
  consumers = Phase.busy Message.stop ∷ [];
}

abbrev leaving : Service ℕ
leaving = record in_hand { consumers = Phase.handled Message.stop (ok false) ∷ [] }

abbrev left : Service ℕ
left = record leaving {
  broker = record { items = []; unfinished = 0 };
  consumers = Phase.over ∷ [];
  finished = Message.stop ∷ [];
}

Reach-left : Consumer.Reach toy default_config [] disk launched_one left
unfolding launched Consumer.put Consumer.get serve_message pure task_done Consumer.next_phase
Reach-left =
    let take : Consumer.Step toy default_config [] disk told in_hand =
      Consumer.moves (Consumer.takes [] [] Message.stop in_hand.broker refl refl refl) in
    let handle : Consumer.Step toy default_config [] disk in_hand leaving =
      Consumer.moves (Consumer.handles [] Message.stop [] refl (λ e. absurd (ground arith)) refl) in
    let leave : Consumer.Step toy default_config [] disk leaving left =
      Consumer.moves (Consumer.acknowledges [] Message.stop (ok false) [] refl refl) in
    Consumer.next (Consumer.next (Consumer.next Reach-told take) handle) leave

all_returned_example : All (λ ph. ph ≡ Phase.over) left.consumers
all_returned_example =
    all_returned toy default_config [] disk 1 small_pool Reach-left refl (omega arith)
