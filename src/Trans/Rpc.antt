-- ===== src/Trans/Rpc.antt =====
-- lib/trans/common/rpc.hxx and lib/trans/transport.hxx: payload headers, and what the caller and the
-- server of remote calls do with them. Requests and responses are bytes; their serialization is zpp_bits'.
use dshuffle.Prelude.{
  ℕ, ◌+◌, ◌%◌, ◌^◌, bit_and, bit_or, Bool, not, ◌==◌, if◌then◌else◌, List, ◌∷◌, Option, none, some,
  put,
}
use dshuffle.Prelude.Outcome.{Outcome, ok, died, assert_failed, undefined, ◌>>=◌}

pub record PayloadHeader : Type 0 where
  pub flags : ℕ
  pub seq : ℕ
  pub id : ℕ

abbrev pub resp_bit : ℕ
resp_bit = 2147483648

abbrev pub oneway_req_bit : ℕ
oneway_req_bit = 1073741824

-- `PayloadHeader().with_seq(seq).with_id(id)`
unfoldable pub header : ℕ → ℕ → PayloadHeader
header seq id = record { flags = 0; seq = seq; id = id }

unfoldable pub as_resp : PayloadHeader → PayloadHeader
as_resp h = record h { flags = bit_or h.flags resp_bit }

unfoldable pub as_oneway_req : PayloadHeader → PayloadHeader
as_oneway_req h = record h { flags = bit_or h.flags oneway_req_bit }

unfoldable pub is_resp : PayloadHeader → Bool
is_resp h = not (bit_and h.flags resp_bit == 0)

unfoldable pub is_oneway_req : PayloadHeader → Bool
is_oneway_req h = not (bit_and h.flags oneway_req_bit == 0)

pub record Payload : Type 0 where
  pub head : PayloadHeader
  pub body : List ℕ

-- The caller: `outstanding_rpcs` maps a sequence number to the rpc of its context; `answers` are the
-- promises set so far.
pub record Caller : Type 0 where
  pub current_seq : ℕ
  pub outstanding_rpcs : ℕ → Option ℕ
  pub answers : List (ℕ × List ℕ)

abbrev pub next_seq : ℕ → ℕ
next_seq seq = (seq + 1) % 2 ^ 32

-- The part of `call` up to the send; `emplace` fails where the number is in use.
unfoldable pub call : Caller → ℕ → List ℕ → Outcome (Caller × Payload)
call c id req = elim (c.outstanding_rpcs c.current_seq) [
  | some _ ↦ assert_failed
  | none ↦ ok (
    record c {
      current_seq = next_seq c.current_seq;
      outstanding_rpcs = put c.outstanding_rpcs c.current_seq (some id);
    },
    record { head = header c.current_seq id; body = req },
  )
]

unfoldable pub oneway : Caller → ℕ → List ℕ → Caller × Payload
oneway c id req = (
  record c { current_seq = next_seq c.current_seq },
  record { head = as_oneway_req (header c.current_seq id); body = req },
)

-- `dispatch_normal_resp`: a context of another rpc would be cast to the wrong type.
unfoldable pub dispatch_resp : Caller → PayloadHeader → List ℕ → Outcome Caller
dispatch_resp c h resp = elim (c.outstanding_rpcs h.seq) [
  | none ↦ assert_failed
  | some id ↦
      if id == h.id
      then ok (record c {
        outstanding_rpcs = put c.outstanding_rpcs h.seq none;
        answers = (h.seq, resp) ∷ c.answers;
      })
      else undefined
]

-- The fiber of `post_recv_resp`; `known` are the rpcs of the transport that have a response.
unfoldable pub recv_resp : (ℕ → Bool) → Caller → Payload → Outcome Caller
recv_resp known c p =
    if is_resp p.head
    then (if known p.head.id then dispatch_resp c p.head p.body else died)
    else died

-- The server: the handlers of rpcs with a response, and of those without one.
pub record Server : Type 0 where
  pub normal : ℕ → Option (List ℕ → List ℕ)
  pub oneways : ℕ → Bool

-- `dispatch_normal_req`
unfoldable pub dispatch_req : Server → Payload → Outcome Payload
dispatch_req s p = elim (s.normal p.head.id) [
  | none ↦ died
  | some handler ↦
      ok (record { head = as_resp (header p.head.seq p.head.id); body = handler p.body })
]

-- `serve_once` from the received payload to the one it sends, if any.
unfoldable pub serve_once : Server → Payload → Outcome (Option Payload)
serve_once s p =
    if is_resp p.head
    then died
    else (if is_oneway_req p.head
        then (if s.oneways p.head.id then ok none else died)
        else dispatch_req s p >>= λ reply. ok (some reply))
