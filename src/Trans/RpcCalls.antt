-- ===== src/Trans/RpcCalls.antt =====
-- A new call: its number is not in use.
use dshuffle.Prelude.{
  ℕ, ◌+◌, ◌%◌, ◌^◌, ◌<◌, ◌≡◌, refl, sym, ap, ◌∙◌, Bool, true, false, ◌==◌, if◌then◌else◌, ◌≢◌, List,
  [], ◌∷◌, ◌++◌, Option, none, some, put, put_self, put-ne, arith, All-append, ℕ_discrete,
}
use dshuffle.Prelude.Outcome.{ok}
use dshuffle.Trans.Rpc.{header, Caller, call, Server}
use dshuffle.Trans.RpcLaws.{IsAsked, IsReply}
use dshuffle.Trans.RpcState.{World, count-seqs, held, IsAnswer, IsMatched, All-mono, asked-put}

module _ (s : Server) (known : ℕ → Bool) where
  pub number-free :
      (w : World) → IsMatched s known w → w.caller.outstanding_rpcs w.caller.current_seq ≡ none
  number-free w m = go (w.caller.outstanding_rpcs w.caller.current_seq) refl
    where
      go :
          (o : Option ℕ)
          → w.caller.outstanding_rpcs w.caller.current_seq ≡ o
          → w.caller.outstanding_rpcs w.caller.current_seq ≡ none
      go none e = e
      go (some id) e =
          let (req, entered) = m.context w.caller.current_seq id e in
          let missing = m.fresh w.caller.current_seq (omega arith) in
          absurd (ground (arith, entered, missing))

  pub call-free :
      (c : Caller) (id : ℕ) (req : List ℕ)
      → c.outstanding_rpcs c.current_seq ≡ none
      → c.current_seq + 1 < 2 ^ 32
      → call c id req
        ≡ ok (
          record c {
            current_seq = c.current_seq + 1;
            outstanding_rpcs = put c.outstanding_rpcs c.current_seq (some id);
          },
          record { head = record { flags = 0; seq = c.current_seq; id = id }; body = req },
        )
  unfolding call header
  call-free c id req free room =
      let exact : (c.current_seq + 1) % 2 ^ 32 ≡ c.current_seq + 1 = omega arith in
      rw (call, free, exact)

  -- The world after a call.
  abbrev pub called : World → ℕ → List ℕ → World
  called w id req = record {
    caller = record (w.caller) {
      current_seq = w.caller.current_seq + 1;
      outstanding_rpcs = put w.caller.outstanding_rpcs w.caller.current_seq (some id);
    };
    requests =
        w.requests
        ++ record { head = record { flags = 0; seq = w.caller.current_seq; id = id }; body = req }
          ∷ [];
    replies = w.replies;
    asked = put w.asked w.caller.current_seq (some (id, req));
  }

  -- A new call: its number is not in use, and it is entered under it.
  pub called-IsMatched :
      (w : World) (id : ℕ) (req : List ℕ) (handler : List ℕ → List ℕ)
      → s.normal id ≡ some handler
      → known id ≡ true
      → IsMatched s known w
      → IsMatched s known (called w id req)
  called-IsMatched w id req handler handled awaited m =
      let n = w.caller.current_seq in
      let keep = λ (x : ℕ) (entry : ℕ × List ℕ). asked-put w.asked n x (id, req) entry m.fresh in
      record {
        fresh = λ x h.
            let other : n ≢ x = λ e. absurd (omega (arith, e)) in
            put-ne w.asked (some (id, req)) other ∙ m.fresh x (omega arith);
        context = λ x id' e. elim (ℕ_discrete n x) [
          | yes same ↦ (req, (let there : (n == x) ≡ true = ground arith in ground (arith, e)))
          | no other ↦
              let (req', entered) =
                m.context x id' (sym (put-ne w.caller.outstanding_rpcs (some id) other) ∙ e) in
              (req', keep x (id', req') entered)
        ];
        once = λ x. elim (ℕ_discrete n x) [
          | yes same ↦
              let there : (n == x) ≡ true = ground arith in
              let was : w.caller.outstanding_rpcs x ≡ none =
                ap w.caller.outstanding_rpcs (sym same) ∙ number-free w m in
              let now : put w.caller.outstanding_rpcs n (some id) x ≡ some id = ground arith in
              omega (
                arith,
                m.once x,
                ap held was,
                ap held now,
                count-seqs x w.requests
                    (record { head = record { flags = 0; seq = n; id = id }; body = req } ∷ []),
                ap {B = ℕ} (λ b. if b then 1 else 0) there,
              )
          | no other ↦
              let elsewhere : (n == x) ≡ false = ground arith in
              omega (
                arith,
                m.once x,
                ap held (put-ne w.caller.outstanding_rpcs (some id) other),
                count-seqs x w.requests
                    (record { head = record { flags = 0; seq = n; id = id }; body = req } ∷ []),
                ap {B = ℕ} (λ b. if b then 1 else 0) elsewhere,
              )
        ];
        going =
            All-append (IsAsked s known (put w.asked n (some (id, req)))) w.requests _
              (All-mono (IsAsked s known w.asked) (IsAsked s known (put w.asked n (some (id, req))))
                w.requests
                (λ q h. record {
                  plain = h.plain;
                  same = keep q.head.seq (q.head.id, q.body) h.same;
                  handler = h.handler;
                  handled = h.handled;
                  awaited = h.awaited;
                })
                m.going)
              (
                record {
                  plain = refl;
                  same = put_self w.asked n (some (id, req));
                  handler = handler;
                  handled = handled;
                  awaited = awaited;
                },
                tt,
              );
        coming =
            All-mono (IsReply s known w.asked) (IsReply s known (put w.asked n (some (id, req))))
              w.replies
              (λ q h. record {
                flagged = h.flagged;
                req = h.req;
                same = keep q.head.seq (q.head.id, h.req) h.same;
                handler = h.handler;
                handled = h.handled;
                result = h.result;
                awaited = h.awaited;
              })
              m.coming;
        right =
            All-mono (IsAnswer s w.asked) (IsAnswer s (put w.asked n (some (id, req))))
              w.caller.answers
              (λ q h. record {
                id = h.id;
                req = h.req;
                handler = h.handler;
                same = keep (q.0) (h.id, h.req) h.same;
                handled = h.handled;
                result = h.result;
              })
              m.right;
      }
