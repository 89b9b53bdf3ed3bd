-- ===== src/Trans/Endpoint.antt =====
-- lib/trans/common/endpoint.hxx: the states of `EndpointBase`.
use dshuffle.Prelude.{
  ◌≡◌, ap, sym, ◌∙◌, append-nil, append_assoc, Bool, true, false, List, [], ◌∷◌, ◌++◌, arith,
}
use dshuffle.Prelude.Outcome.{Outcome, ok, ◌>>=◌, ◌>>◌, check, bind-ok}

pub data Status : Type 0 where
  idle : Status
  ready : Status
  running : Status
  stopping : Status
  exited : Status

abbrev pub is_idle : Status → Bool
is_idle idle = true
is_idle _ = false

abbrev pub is_ready : Status → Bool
is_ready ready = true
is_ready _ = false

abbrev pub is_running : Status → Bool
is_running running = true
is_running _ = false

abbrev pub is_stopping : Status → Bool
is_stopping stopping = true
is_stopping _ = false

unfoldable pub prepare : Status → Outcome Status
prepare s = check (is_idle s) >> ok ready

unfoldable pub run : Status → Outcome Status
run s = check (is_ready s) >> ok running

unfoldable pub stop : Status → Outcome Status
stop s = check (is_running s) >> ok stopping

unfoldable pub shutdown : Status → Outcome Status
shutdown s = check (is_stopping s) >> ok exited

pub data Action : Type 0 where
  preparing : Action
  starting : Action
  ending : Action
  leaving : Action

abbrev pub act : Action → Status → Outcome Status
act preparing s = prepare s
act starting s = run s
act ending s = stop s
act leaving s = shutdown s

unfoldable pub act_all : List Action → Status → Outcome Status
act_all [] s = ok s
act_all (a ∷ rest) s = act a s >>= act_all rest

-- What has to have been called on the way to a state.
abbrev pub path_to : Status → List Action
path_to idle = []
path_to ready = preparing ∷ []
path_to running = preparing ∷ starting ∷ []
path_to stopping = preparing ∷ starting ∷ ending ∷ []
path_to exited = preparing ∷ starting ∷ ending ∷ leaving ∷ []

path_to-ok : (t s : Status) → ok t ≡ ok s → path_to s ≡ path_to t
path_to-ok t s e = let same : s ≡ t = ground (arith, e) in ap path_to same

act-path_to : (a : Action) (s s' : Status) → act a s ≡ ok s' → path_to s' ≡ path_to s ++ a ∷ []
unfolding prepare run stop shutdown
act-path_to preparing idle s' e = path_to-ok ready s' e
act-path_to preparing ready s' e = absurd (ground arith)
act-path_to preparing running s' e = absurd (ground arith)
act-path_to preparing stopping s' e = absurd (ground arith)
act-path_to preparing exited s' e = absurd (ground arith)
act-path_to starting idle s' e = absurd (ground arith)
act-path_to starting ready s' e = path_to-ok running s' e
act-path_to starting running s' e = absurd (ground arith)
act-path_to starting stopping s' e = absurd (ground arith)
act-path_to starting exited s' e = absurd (ground arith)
act-path_to ending idle s' e = absurd (ground arith)
act-path_to ending ready s' e = absurd (ground arith)
act-path_to ending running s' e = path_to-ok stopping s' e
act-path_to ending stopping s' e = absurd (ground arith)
act-path_to ending exited s' e = absurd (ground arith)
act-path_to leaving idle s' e = absurd (ground arith)
act-path_to leaving ready s' e = absurd (ground arith)
act-path_to leaving running s' e = absurd (ground arith)
act-path_to leaving stopping s' e = path_to-ok exited s' e
act-path_to leaving exited s' e = absurd (ground arith)

-- If a sequence of transitions of an endpoint succeeds, the transitions on the one path from idle to
-- the state it ends in are those to the state it started in, followed by the sequence.
pub act_all-path_to :
    (actions : List Action) (s s' : Status)
    → act_all actions s ≡ ok s'
    → path_to s' ≡ path_to s ++ actions
unfolding act_all
act_all-path_to [] s s' e =
    let same : s' ≡ s = ground (arith, e) in ap path_to same ∙ sym (append-nil (path_to s))
act_all-path_to (a ∷ rest) s s' e =
    let (t, first, later) = bind-ok (act a s) (act_all rest) s' e in
    act_all-path_to rest t s' later
    ∙ ap (λ xs. xs ++ rest) (act-path_to a s t first)
    ∙ append_assoc (path_to s) (a ∷ []) rest
