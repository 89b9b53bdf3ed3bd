-- ===== src/Trans/RpcHistory.antt =====
-- Histories of calls between one caller and one server.
use dshuffle.Prelude.{ℕ, ◌≡◌, refl, subst, Bool, List, [], ◌∷◌, ◌++◌, none, some, arith, All}
use dshuffle.Prelude.Outcome.{ok}
use dshuffle.Trans.Rpc.{Payload, Caller, recv_resp, Server, serve_once}
use dshuffle.Trans.RpcLaws.{IsAsked, serve_once-IsReply, recv_resp-ok}
use dshuffle.Trans.RpcState.{World, Step, Reach, IsAnswer, IsMatched, All-split}
use dshuffle.Trans.RpcInFlight.{serving-IsMatched, IsReply-held, receiving-IsMatched}
use dshuffle.Trans.RpcCalls.{number-free, call-free, called, called-IsMatched}

module _ (s : Server) (known : ℕ → Bool) where
  Step-IsMatched : {w v : World} → Step s known w v → IsMatched s known w → IsMatched s known v
  Step-IsMatched (Step.calling w id req c p handler room handled awaited run) m =
      let done = call-free s known w.caller id req (number-free s known w m) room in
      let same_c : c ≡ (called s known w id req).caller = ground (arith, run, done) in
      let same_p : p ≡ record {
        head = record { flags = 0; seq = w.caller.current_seq; id = id };
        body = req;
      } =
        ground (arith, run, done) in
      rw (same_c, same_p) (called-IsMatched s known w id req handler handled awaited m)
  Step-IsMatched (Step.serving w before after p r at_p run) m =
      serving-IsMatched s known w before after p r at_p run m
  Step-IsMatched (Step.receiving w before after p c at_p run) m =
      receiving-IsMatched s known w before after p c at_p run m

  pub Reach-IsMatched :
      {w v : World} → IsMatched s known w → Reach s known w v → IsMatched s known v
  Reach-IsMatched m Reach.here = m
  Reach-IsMatched m (Reach.next r t) = Step-IsMatched t (Reach-IsMatched m r)

  abbrev pub start : World
  start = record {
    caller = record { current_seq = 1; outstanding_rpcs = λ _. none; answers = [] };
    requests = [];
    replies = [];
    asked = λ _. none;
  }

  -- After any history of calls of one caller to one server, started with nothing in flight, with
  -- fewer calls than sequence numbers, rpcs that the server handles, and payloads served and
  -- received in any order: every promise set so far holds what the server's handler makes of the
  -- request of that very call; every request in flight is served, and every response in flight finds
  -- its context, of the right rpc, and sets its promise.
  pub Reach-answers :
      {w : World}
      → Reach s known start w
      → All (IsAnswer s w.asked) w.caller.answers
        × ((before after : List Payload) (p : Payload)
            → w.requests ≡ before ++ p ∷ after
            → (r : Payload) × (serve_once s p ≡ ok (some r)))
        × ((before after : List Payload) (p : Payload)
            → w.replies ≡ before ++ p ∷ after
            → (c : Caller) × (recv_resp known w.caller p ≡ ok c)
              × (c.answers ≡ (p.head.seq, p.body) ∷ w.caller.answers))
  Reach-answers {w} r =
      let m = Reach-IsMatched start-IsMatched r in
      (
        m.right,
        (λ before after p at_p.
            let (mine, _) =
              All-split (IsAsked s known w.asked) before p after
                (subst (All (IsAsked s known w.asked)) at_p m.going) in
            let (r', run, _, _) = serve_once-IsReply s known w.asked p mine in (r', run)),
        λ before after p at_p.
            let (mine, there) = IsReply-held s known w before after p at_p m in
            (_, recv_resp-ok s known w.asked w.caller p mine there, refl),
      )
    where
      start-IsMatched : IsMatched s known start
      start-IsMatched = record {
        fresh = λ x h. refl;
        context = λ x id e. absurd (ground arith);
        once = λ x. omega arith;
        going = tt;
        coming = tt;
        right = tt;
      }
