-- ===== src/Spill/DispatchLaws.antt =====
-- One round of the dispatcher.
use dshuffle.Prelude.{
  ℕ, suc, ◌+◌, ◌%◌, ◌^◌, ◌<◌, ◌≤◌, ◌≡◌, refl, sym, ap, ◌∙◌, Bool, not, List, [], ◌∷◌, ◌++◌,
  append-nil, append_assoc, length, get_or, arith,
}
use dshuffle.Prelude.Outcome.{ok}
use dshuffle.Spill.Shuffle.{Dispatcher, push_disk, dispatch_local, dispatch_remote, do_dispatch}
use dshuffle.Spill.ShuffleLaws.{
  heads, tails, those, share, Routes, dispatch-Routes, Routes-trans, those-cons,
}

dispatch_local-Routes :
    (to_remote : ℕ → Bool) (m : ℕ) (qs : List (List ℕ)) (d : Dispatcher)
    → suc m ≤ length d.trsqs
    → (d' : Dispatcher) × (dispatch_local to_remote (suc m) qs d ≡ ok (tails qs, d'))
      × Routes (suc m) d (those (λ x. not (to_remote x)) (heads qs)) (those to_remote (heads qs)) d'
unfolding dispatch_local
dispatch_local-Routes to_remote m [] d room = (
  d,
  refl,
  record {
    long = refl;
    to_disk = sym (append-nil d.dsq);
    index = omega arith;
    to_remote = λ j. sym (append-nil (get_or d.trsqs j []));
  },
)
dispatch_local-Routes to_remote m ([] ∷ qs) d room =
    let (d', run, routes) = dispatch_local-Routes to_remote m qs d room in
    (d', rw (dispatch_local, run), routes)
dispatch_local-Routes to_remote m ((t ∷ q) ∷ qs) d room =
    let (d₁, run₁, first) = dispatch-Routes to_remote m t d room in
    let (d₂, run₂, rest) = dispatch_local-Routes to_remote m qs d₁ (omega (arith, first.long)) in
    let at_home : ℕ → Bool = λ x. not (to_remote x) in
    (
      d₂,
      rw (dispatch_local, run₁, run₂),
      rw (those-cons at_home t (heads qs), those-cons to_remote t (heads qs))
          (Routes-trans (suc m) d d₁ d₂ (those at_home (t ∷ [])) (those at_home (heads qs))
            (those to_remote (t ∷ [])) (those to_remote (heads qs)) first rest),
    )

dispatch_remote_lem :
    (qs : List (List ℕ)) (d : Dispatcher)
    → dispatch_remote qs d ≡ (tails qs, record d { dsq = d.dsq ++ heads qs })
unfolding dispatch_remote push_disk
dispatch_remote_lem [] d = ap (λ k. ([], record d { dsq = k })) (sym (append-nil d.dsq))
dispatch_remote_lem ([] ∷ qs) d = rw (dispatch_remote_lem qs d)
dispatch_remote_lem ((t ∷ q) ∷ qs) d = rw (
  dispatch_remote_lem qs (record d { dsq = d.dsq ++ t ∷ [] }),
  append_assoc d.dsq (t ∷ []) (heads qs),
)

-- With at least one and at most as many rsqs as trsqs, a round of the dispatcher succeeds and takes
-- the first task of every queue that has one: of those of the local queues that go to other
-- machines, in order, the k-th, from 1, goes to the end of the trsq whose index is trsqs_i + k in 32
-- bits, modulo the number of rsqs, and trsqs_i moves on by one for each; the other local ones and
-- then all of the remote queues go to the end of dsq in order; no queue is added or lost.
pub do_dispatch_lem :
    (to_remote : ℕ → Bool) (lsqs rsqs : List (List ℕ)) (d : Dispatcher)
    → 0 < length rsqs
    → length rsqs ≤ length d.trsqs
    → (d' : Dispatcher) × (do_dispatch to_remote lsqs rsqs d ≡ ok (tails lsqs, (tails rsqs, d')))
      × (d'.dsq ≡ d.dsq ++ (those (λ x. not (to_remote x)) (heads lsqs) ++ heads rsqs))
      × (length d'.trsqs ≡ length d.trsqs)
      × (d'.trsqs_i % 2 ^ 32 ≡ (d.trsqs_i + length (those to_remote (heads lsqs))) % 2 ^ 32)
      × ((j : ℕ)
          → get_or d'.trsqs j []
            ≡ get_or d.trsqs j [] ++ share (length rsqs) j d.trsqs_i (those to_remote (heads lsqs)))
unfolding do_dispatch
do_dispatch_lem to_remote lsqs [] d some_rsqs room = absurd (omega arith)
do_dispatch_lem to_remote lsqs (r ∷ rsqs) d some_rsqs room =
    let (d₁, run, routes) = dispatch_local-Routes to_remote (length rsqs) lsqs d room in
    let all = r ∷ rsqs in
    (
      record d₁ { dsq = d₁.dsq ++ heads all },
      rw run (ap (λ x. ok (tails lsqs, x)) (dispatch_remote_lem all d₁)),
      ap (λ xs. xs ++ heads all) routes.to_disk
          ∙ append_assoc d.dsq (those (λ x. not (to_remote x)) (heads lsqs)) (heads all),
      routes.long,
      routes.index,
      routes.to_remote,
    )
