-- ===== src/Auth/State/Laws.antt =====
-- The reducer keeps the session state coherent.
use choschmous_v.Base.{List, [], ◌∷◌, nat_eq, All, text_eq}
use mathlib.Core.List.{foldl}
use choschmous_v.Auth.State.{
  AuthState, Action, loading, set_user, set_error, clear_error, stop_loading, logout, reducer,
  IsCoherent, IsProper,
}

pub reducer-IsCoherent :
    (s : AuthState) (a : Action) → IsProper a → IsCoherent s → IsCoherent (reducer s a)
unfolding reducer
reducer-IsCoherent s loading p h = h
reducer-IsCoherent s (set_user u r) p h = p
reducer-IsCoherent s (set_error e) p h = h
reducer-IsCoherent s clear_error p h = h
reducer-IsCoherent s stop_loading p h = h
reducer-IsCoherent s logout p h = tt

-- After any sequence of the provider's actions, in any order, the user, the role and the flag agree.
pub foldl-reducer-IsCoherent :
    (s : AuthState) (actions : List Action)
    → All IsProper actions
    → IsCoherent s
    → IsCoherent (foldl reducer s actions)
foldl-reducer-IsCoherent s [] p h = h
foldl-reducer-IsCoherent s (a ∷ rest) (p, ps) h =
    foldl-reducer-IsCoherent (reducer s a) rest ps (reducer-IsCoherent s a p h)
