-- ===== src/Trans/RpcState.antt =====
-- A caller and a server with the payloads in flight between them, and the steps of both.
use dshuffle.Prelude.{
  ℕ, ◌+◌, ◌^◌, ◌<◌, ◌≤◌, ◌≡◌, ◌∙◌, Bool, true, List, [], ◌∷◌, ◌++◌, Option, none, some, put, put-ne,
  arith, All, ℕ_discrete,
}
use dshuffle.Prelude.Outcome.{ok}
use dshuffle.Memory.Count.{count}
use dshuffle.Trans.Rpc.{Payload, Caller, call, recv_resp, Server, serve_once}
use dshuffle.Trans.RpcLaws.{IsAsked, IsReply}

-- The caller, the requests and the responses in flight, and what was asked under each number.
pub record World : Type 0 where
  pub caller : Caller
  pub requests : List Payload
  pub replies : List Payload
  pub asked : ℕ → Option (ℕ × List ℕ)

module _ (s : Server) (known : ℕ → Bool) where
  -- The sequence numbers have not wrapped; the server handles the rpcs that are called.
  pub data Step : World → World → Type 0 where
    calling :
        (w : World) (id : ℕ) (req : List ℕ) (c : Caller) (p : Payload) (handler : List ℕ → List ℕ)
        → w.caller.current_seq + 1 < 2 ^ 32
        → s.normal id ≡ some handler
        → known id ≡ true
        → call w.caller id req ≡ ok (c, p)
        → Step w (record {
          caller = c;
          requests = w.requests ++ p ∷ [];
          replies = w.replies;
          asked = put w.asked w.caller.current_seq (some (id, req));
        })
    serving :
        (w : World) (before after : List Payload) (p r : Payload)
        → w.requests ≡ before ++ p ∷ after
        → serve_once s p ≡ ok (some r)
        → Step w (record w { requests = before ++ after; replies = w.replies ++ r ∷ [] })
    receiving :
        (w : World) (before after : List Payload) (p : Payload) (c : Caller)
        → w.replies ≡ before ++ p ∷ after
        → recv_resp known w.caller p ≡ ok c
        → Step w (record w { caller = c; replies = before ++ after })

  pub data Reach (w : World) : World → Type 0 where
    here : Reach w w
    next : {t u : World} → Reach w t → Step t u → Reach w u

-- The sequence numbers of payloads.
abbrev pub seqs : List Payload → List ℕ
seqs [] = []
seqs (p ∷ ps) = p.head.seq ∷ seqs ps

pub count-seqs :
    (x : ℕ) (ps qs : List Payload)
    → count x (seqs (ps ++ qs)) ≡ count x (seqs ps) + count x (seqs qs)
count-seqs x [] qs = omega arith
count-seqs x (p ∷ ps) qs = omega (arith, count-seqs x ps qs)

abbrev pub held : Option ℕ → ℕ
held none = 0
held (some id) = 1

-- An answer is what the server's handler makes of the request of that call.
pub record IsAnswer (s : Server) (asked : ℕ → Option (ℕ × List ℕ)) (a : ℕ × List ℕ) : Type 0 where
  pub id : ℕ
  pub req : List ℕ
  pub handler : List ℕ → List ℕ
  pub same : asked (a.0) ≡ some (id, req)
  pub handled : s.normal id ≡ some handler
  pub result : a.1 ≡ handler req

pub record IsMatched (s : Server) (known : ℕ → Bool) (w : World) : Type 0 where
  pub fresh : (x : ℕ) → w.caller.current_seq ≤ x → w.asked x ≡ none
  pub context :
      (x id : ℕ)
      → w.caller.outstanding_rpcs x ≡ some id
      → (req : List ℕ) × (w.asked x ≡ some (id, req))
  pub once :
      (x : ℕ)
      → count x (seqs w.requests) + count x (seqs w.replies) ≡ held (w.caller.outstanding_rpcs x)
  pub going : All (IsAsked s known w.asked) w.requests
  pub coming : All (IsReply s known w.asked) w.replies
  pub right : All (IsAnswer s w.asked) w.caller.answers

-- A list with one element taken out of the middle.
pub All-split :
    {A : Type 0} (P : A → Type 0) (xs : List A) (y : A) (zs : List A)
    → All P (xs ++ y ∷ zs)
    → P y × All P (xs ++ zs)
All-split P [] y zs h = h
All-split P (x ∷ xs) y zs h = let (mine, others) = All-split P xs y zs h.1 in (mine, (h.0, others))

pub All-mono :
    {A : Type 0} (P Q : A → Type 0) (xs : List A) → ((x : A) → P x → Q x) → All P xs → All Q xs
All-mono P Q [] f h = tt
All-mono P Q (x ∷ xs) f h = (f x h.0, All-mono P Q xs f h.1)

-- An entry that is there stays when the next call is entered.
pub asked-put :
    (asked : ℕ → Option (ℕ × List ℕ)) (n x : ℕ) (new entry : ℕ × List ℕ)
    → ((y : ℕ) → n ≤ y → asked y ≡ none)
    → asked x ≡ some entry
    → put asked n (some new) x ≡ some entry
asked-put asked n x new entry fresh e = elim (ℕ_discrete n x) [
  | yes same ↦ absurd (let missing = fresh x (omega arith) in ground (arith, missing, e))
  | no other ↦ put-ne asked (some new) other ∙ e
]
