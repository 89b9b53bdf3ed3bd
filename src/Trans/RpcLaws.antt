-- ===== src/Trans/RpcLaws.antt =====
-- One call, one request and one response.
use dshuffle.Prelude.{ℕ, ◌≡◌, refl, Bool, true, ◌==◌, List, ◌∷◌, Option, none, some, put, arith}
use dshuffle.Prelude.Outcome.{ok}
use dshuffle.Trans.Rpc.{
  header, as_resp, is_resp, is_oneway_req, resp_bit, Payload, Caller, dispatch_resp, recv_resp,
  Server, dispatch_req, serve_once,
}

-- A request in flight that has a response: it was asked, and the server has a handler for it.
pub record IsAsked (s : Server) (known : ℕ → Bool) (asked : ℕ → Option (ℕ × List ℕ)) (p : Payload)
    : Type 0 where
  pub plain : p.head.flags ≡ 0
  pub same : asked p.head.seq ≡ some (p.head.id, p.body)
  pub handler : List ℕ → List ℕ
  pub handled : s.normal p.head.id ≡ some handler
  pub awaited : known p.head.id ≡ true

-- A response in flight: it is what the handler makes of the request that was asked.
pub record IsReply (s : Server) (known : ℕ → Bool) (asked : ℕ → Option (ℕ × List ℕ)) (p : Payload)
    : Type 0 where
  pub flagged : p.head.flags ≡ resp_bit
  pub req : List ℕ
  pub same : asked p.head.seq ≡ some (p.head.id, req)
  pub handler : List ℕ → List ℕ
  pub handled : s.normal p.head.id ≡ some handler
  pub result : p.body ≡ handler req
  pub awaited : known p.head.id ≡ true

pub serve_once-IsReply :
    (s : Server) (known : ℕ → Bool) (asked : ℕ → Option (ℕ × List ℕ)) (p : Payload)
    → IsAsked s known asked p
    → (r : Payload) × (serve_once s p ≡ ok (some r))
      × (r.head.seq ≡ p.head.seq)
      × IsReply s known asked r
unfolding serve_once dispatch_req is_resp is_oneway_req header as_resp
serve_once-IsReply s known asked p h = (
  record {
    head = record { flags = resp_bit; seq = p.head.seq; id = p.head.id };
    body = h.handler p.body;
  },
  rw (h.plain, dispatch_req, h.handled),
  refl,
  record {
    flagged = refl;
    req = p.body;
    same = h.same;
    handler = h.handler;
    handled = h.handled;
    result = refl;
    awaited = h.awaited;
  },
)

-- A response whose context is still there sets its promise.
pub recv_resp-ok :
    (s : Server) (known : ℕ → Bool) (asked : ℕ → Option (ℕ × List ℕ)) (c : Caller) (p : Payload)
    → IsReply s known asked p
    → c.outstanding_rpcs p.head.seq ≡ some p.head.id
    → recv_resp known c p
      ≡ ok (record c {
        outstanding_rpcs = put c.outstanding_rpcs p.head.seq none;
        answers = (p.head.seq, p.body) ∷ c.answers;
      })
unfolding recv_resp dispatch_resp is_resp
recv_resp-ok s known asked c p h there =
    let same_id : (p.head.id == p.head.id) ≡ true = ground arith in
    rw (h.flagged, h.awaited, dispatch_resp, there, same_id)
