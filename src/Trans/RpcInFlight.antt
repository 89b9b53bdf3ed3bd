-- ===== src/Trans/RpcInFlight.antt =====
-- Requests that are served and responses that are received.
use dshuffle.Prelude.{
  ℕ, ◌≡◌, refl, sym, ap, ◌∙◌, subst, Bool, true, false, ◌==◌, if◌then◌else◌, List, [], ◌∷◌, ◌++◌,
  Option, none, some, put, put-ne, arith, All, All-append, ℕ_discrete,
}
use dshuffle.Prelude.Outcome.{ok}
use dshuffle.Memory.Count.{count}
use dshuffle.Trans.Rpc.{Payload, Caller, recv_resp, Server, serve_once}
use dshuffle.Trans.RpcLaws.{IsAsked, IsReply, serve_once-IsReply, recv_resp-ok}
use dshuffle.Trans.RpcState.{World, seqs, count-seqs, held, IsMatched, All-split}

module _ (s : Server) (known : ℕ → Bool) where
  pub serving-IsMatched :
      (w : World) (before after : List Payload) (p r : Payload)
      → w.requests ≡ before ++ p ∷ after
      → serve_once s p ≡ ok (some r)
      → IsMatched s known w
      → IsMatched s known (record w { requests = before ++ after; replies = w.replies ++ r ∷ [] })
  serving-IsMatched w before after p r at_p run m =
      let (mine, others) =
        All-split (IsAsked s known w.asked) before p after
          (subst (All (IsAsked s known w.asked)) at_p m.going) in
      let (r', run', same_seq, reply) = serve_once-IsReply s known w.asked p mine in
      let same : r' ≡ r = ground (arith, run, run') in
      let seq : r.head.seq ≡ p.head.seq = ap (λ (x : Payload). x.head.seq) (sym same) ∙ same_seq in
      record {
        fresh = m.fresh;
        context = m.context;
        once = λ x. omega (
          arith,
          m.once x,
          ap (λ ps. count x (seqs ps)) at_p,
          count-seqs x before (p ∷ after),
          count-seqs x before after,
          count-seqs x w.replies (r ∷ []),
          ap {B = ℕ} (λ k. if k == x then 1 else 0) seq,
        );
        going = others;
        coming =
            All-append (IsReply s known w.asked) w.replies (r ∷ []) m.coming
              (subst (IsReply s known w.asked) same reply, tt);
        right = m.right;
      }

  -- The context of a response in flight is there, and of the right rpc.
  pub IsReply-held :
      (w : World) (before after : List Payload) (p : Payload)
      → w.replies ≡ before ++ p ∷ after
      → IsMatched s known w
      → IsReply s known w.asked p × (w.caller.outstanding_rpcs p.head.seq ≡ some p.head.id)
  IsReply-held w before after p at_p m =
      let (mine, _) =
        All-split (IsReply s known w.asked) before p after
          (subst (All (IsReply s known w.asked)) at_p m.coming) in
      (mine, go mine (w.caller.outstanding_rpcs p.head.seq) refl)
    where
      go :
          IsReply s known w.asked p
          → (o : Option ℕ) → w.caller.outstanding_rpcs p.head.seq ≡ o
          → w.caller.outstanding_rpcs p.head.seq ≡ some p.head.id
      go mine none e = absurd (
          let counted = count-seqs p.head.seq before (p ∷ after) in
          let whole = m.once p.head.seq in
          let in_replies = ap (λ ps. count p.head.seq (seqs ps)) at_p in
          let nothing = ap held e in
          let itself : (p.head.seq == p.head.seq) ≡ true = ground arith in
          let one = ap {B = ℕ} (λ b. if b then 1 else 0) itself in
          omega (arith, counted, whole, in_replies, nothing, one))
      go mine (some id) e =
          let (req, asked) = m.context p.head.seq id e in
          let same : id ≡ p.head.id = ground (arith, asked, mine.same) in e ∙ ap some same

  pub receiving-IsMatched :
      (w : World) (before after : List Payload) (p : Payload) (c : Caller)
      → w.replies ≡ before ++ p ∷ after
      → recv_resp known w.caller p ≡ ok c
      → IsMatched s known w
      → IsMatched s known (record w { caller = c; replies = before ++ after })
  receiving-IsMatched w before after p c at_p run m =
      let (mine, there) = IsReply-held w before after p at_p m in
      let (_, others) =
        All-split (IsReply s known w.asked) before p after
          (subst (All (IsReply s known w.asked)) at_p m.coming) in
      let done = recv_resp-ok s known w.asked w.caller p mine there in
      let c' : Caller = record (w.caller) {
        outstanding_rpcs = put w.caller.outstanding_rpcs p.head.seq none;
        answers = (p.head.seq, p.body) ∷ w.caller.answers;
      } in
      let same : c ≡ c' = ground (arith, run, done) in
      rw same (record {
        fresh = m.fresh;
        context = λ x id e. elim (ℕ_discrete p.head.seq x) [
          | yes mine_too ↦ absurd (ground (arith, e))
          | no other ↦ m.context x id (sym (put-ne w.caller.outstanding_rpcs none other) ∙ e)
        ];
        once = λ x. elim (ℕ_discrete p.head.seq x) [
          | yes same_seq ↦
              let gone : put w.caller.outstanding_rpcs p.head.seq none x ≡ none = ground arith in
              let was : w.caller.outstanding_rpcs x ≡ some p.head.id =
                ap w.caller.outstanding_rpcs (sym same_seq) ∙ there in
              let itself : (p.head.seq == x) ≡ true = ground arith in
              omega (
                arith,
                m.once x,
                ap held was,
                ap held gone,
                ap (λ ps. count x (seqs ps)) at_p,
                count-seqs x before (p ∷ after),
                count-seqs x before after,
                ap {B = ℕ} (λ b. if b then 1 else 0) itself,
              )
          | no other ↦
              let elsewhere : (p.head.seq == x) ≡ false = ground arith in
              omega (
                arith,
                m.once x,
                ap held (put-ne w.caller.outstanding_rpcs none other),
                ap (λ ps. count x (seqs ps)) at_p,
                count-seqs x before (p ∷ after),
                count-seqs x before after,
                ap {B = ℕ} (λ b. if b then 1 else 0) elsewhere,
              )
        ];
        going = m.going;
        coming = others;
        right = (
          record {
            id = p.head.id;
            req = mine.req;
            handler = mine.handler;
            same = mine.same;
            handled = mine.handled;
            result = mine.result;
          },
          m.right,
        );
      })
