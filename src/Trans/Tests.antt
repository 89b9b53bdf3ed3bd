-- ===== src/Trans/Tests.antt =====
-- Remote calls on small inputs.
use dshuffle.Prelude.{
  ℕ, ◌≡◌, refl, Bool, ◌==◌, if◌then◌else◌, List, [], ◌∷◌, ◌++◌, none, some, put, All, arith,
}
use dshuffle.Prelude.Outcome.{ok}
use dshuffle.Trans.Endpoint.{
  idle, running, preparing, starting, act_all, act_all-path_to, prepare, run,
}
use dshuffle.Trans.Rpc.{
  Payload, Caller, Server, header, as_resp, call, serve_once, dispatch_req, recv_resp,
  dispatch_resp, is_resp, is_oneway_req,
}
use dshuffle.Trans.RpcHistory.{start, Reach-answers}
use dshuffle.Trans.RpcState.{World, Step, Reach, IsAnswer}

act_all-path_to_example : preparing ∷ starting ∷ [] ≡ [] ++ (preparing ∷ starting ∷ [])
unfolding act_all prepare run
act_all-path_to_example = act_all-path_to (preparing ∷ starting ∷ []) idle running refl

-- Rpc 3 adds a 1 to its request.
abbrev server : Server
server = record {
  normal = λ id. if id == 3 then some (λ xs. xs ++ 1 ∷ []) else none;
  oneways = λ id. id == 4;
}

abbrev known : ℕ → Bool
known id = id == 3

abbrev request : Payload
request = record { head = record { flags = 0; seq = 1; id = 3 }; body = 8 ∷ [] }

abbrev reply : Payload
reply = record { head = record { flags = 2147483648; seq = 1; id = 3 }; body = 8 ∷ 1 ∷ [] }

abbrev asked_caller : Caller
asked_caller = record {
  current_seq = 2;
  outstanding_rpcs = put (λ _. none) 1 (some 3);
  answers = [];
}

abbrev answered : World
answered = record {
  caller = record {
    current_seq = 2;
    outstanding_rpcs = put asked_caller.outstanding_rpcs 1 none;
    answers = (1, 8 ∷ 1 ∷ []) ∷ [];
  };
  requests = [];
  replies = [];
  asked = put (λ _. none) 1 (some (3, 8 ∷ []));
}

answered-Reach : Reach server known (start server known) answered
unfolding call header serve_once dispatch_req as_resp recv_resp dispatch_resp is_resp is_oneway_req
answered-Reach =
    Reach.next
      (Reach.next
        (Reach.next Reach.here (
          Step.calling (start server known) 3 (8 ∷ []) asked_caller request (λ xs. xs ++ 1 ∷ [])
            (omega arith) refl refl refl))
        (Step.serving _ [] [] request reply refl refl))
      (Step.receiving _ [] [] reply _ refl refl)

Reach-answers_example :
    All (IsAnswer server answered.asked) answered.caller.answers
    × ((before after : List Payload) (p : Payload)
        → answered.requests ≡ before ++ p ∷ after
        → (r : Payload) × (serve_once server p ≡ ok (some r)))
    × ((before after : List Payload) (p : Payload)
        → answered.replies ≡ before ++ p ∷ after
        → (c : Caller) × (recv_resp known answered.caller p ≡ ok c)
          × (c.answers ≡ (p.head.seq, p.body) ∷ answered.caller.answers))
Reach-answers_example = Reach-answers server known answered-Reach
