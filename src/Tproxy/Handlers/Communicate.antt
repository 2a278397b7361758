-- ===== src/Tproxy/Handlers/Communicate.antt =====
-- The two goroutines of `Communicate`: whatever their order, the handler is closed once.
use mathlib.Core.Bool.{false≢true}
use deepin_network_proxy.Tproxy.Handlers.{
  ProtoTyp, proto_Eq, HandlerKey, key_Eq, HandlerMgr, handler_at, close_base_handler, Stage,
  copying, checked, marked, finished, Session, advance, Side, remote_side, local_side, step,
  communicate,
}
use deepin_network_proxy.Tproxy.Handlers.Close.{close_base_handler_lem}
use deepin_network_proxy.Prelude.{
  ◌≡◌, refl, ap, ◌∙◌, ◌⊎◌, inl, inr, Bool, true, false, ◌&&◌, ◌||◌, none, List, [], ◌∷◌, arith,
  nat_Eq, list_Eq, ==_refl,
}

abbrev is_marked : Stage → Bool
is_marked marked = true
is_marked _ = false

abbrev is_early : Stage → Bool
is_early copying = true
is_early checked = true
is_early _ = false

-- Before the first `Remove`: where the mark is set, one of the two is still to remove the handler.
abbrev waiting : Bool → Stage → Stage → Bool
waiting true l r = is_marked l || is_marked r
waiting false l r = is_early l && is_early r

module _ (typ : ProtoTyp) (key : HandlerKey) (m : HandlerMgr) where
  abbrev gone : HandlerMgr
  gone = close_base_handler m typ key

  -- The handler is there and will be removed, or it is gone.
  abbrev Inv : HandlerMgr → Bool → Stage → Stage → Type 0
  Inv now deleted l r =
      ((now ≡ m) × (waiting deleted l r ≡ true)) ⊎ ((now ≡ gone) × (deleted ≡ true))

  close_absent : (n : HandlerMgr) → handler_at n typ key ≡ none → close_base_handler n typ key ≡ n
  unfolding close_base_handler
  close_absent n h = rw (close_base_handler, h) refl

  close_twice : close_base_handler gone typ key ≡ gone
  close_twice =
      close_absent gone
        ((close_base_handler_lem m typ typ key key).0 ∙ rw (==_refl typ, ==_refl key) refl)

  advance_left :
      (now : HandlerMgr) (deleted : Bool) (l r : Stage)
      → Inv now deleted l r
      → let (l', d, n) = advance typ key l deleted now in Inv n d l' r
  unfolding advance
  advance_left now true copying r (inl (e, w)) = inl (e, w)
  advance_left now true copying r (inr (e, d)) = inr (e, d)
  advance_left now false copying r i = i
  advance_left now deleted checked r (inl (e, w)) = inl (e, refl)
  advance_left now deleted checked r (inr (e, d)) = inr (e, refl)
  advance_left now true marked r (inl (e, w)) = inr (ap (λ n. close_base_handler n typ key) e, refl)
  advance_left now false marked r (inl (e, w)) = absurd (false≢true w)
  advance_left now deleted marked r (inr (e, d)) =
      inr (ap (λ n. close_base_handler n typ key) e ∙ close_twice, d)
  advance_left now deleted finished r i = i

  swap :
      (now : HandlerMgr) (deleted : Bool) (l r : Stage) → Inv now deleted l r → Inv now deleted r l
  swap now true l r (inl (e, w)) = inl (e, ground arith)
  swap now false l r (inl (e, w)) = inl (e, ground arith)
  swap now deleted l r (inr i) = inr i

  abbrev Holds : Session → Type 0
  Holds s = Inv s.mgr s.deleted s.to_remote s.to_local

  step-Holds : (s : Session) (side : Side) → Holds s → Holds (step typ key s side)
  unfolding step
  step-Holds s remote_side i = advance_left s.mgr s.deleted s.to_remote s.to_local i
  step-Holds s local_side i =
      let (l, d, n) = advance typ key s.to_local s.deleted s.mgr in
      swap n d l s.to_remote (
        advance_left s.mgr s.deleted s.to_local s.to_remote
          (swap s.mgr s.deleted s.to_remote s.to_local i))

  communicate-Holds :
      (s : Session) (sides : List Side) → Holds s → Holds (communicate typ key s sides)
  unfolding communicate
  communicate-Holds s [] i = i
  communicate-Holds s (side ∷ sides) i =
      communicate-Holds (step typ key s side) sides (step-Holds s side i)

  ended :
      (now : HandlerMgr) (deleted : Bool) (l r : Stage)
      → Inv now deleted l r
      → l ≡ finished
      → r ≡ finished
      → now ≡ gone
  ended now true l r (inl (e, w)) h k = absurd (ground arith)
  ended now false l r (inl (e, w)) h k = absurd (ground arith)
  ended now deleted l r (inr (e, d)) h k = e

  abbrev pub begun : Session
  begun = record { mgr = m; deleted = false; to_remote = copying; to_local = copying }

-- Once both goroutines have ended, however their steps alternated, the manager is as after one call
-- of `CloseBaseHandler`: the handler is closed, closed once, and out of the map.
pub communicate_closes_once :
    (typ : ProtoTyp) (key : HandlerKey) (m : HandlerMgr) (sides : List Side)
    → (communicate typ key (begun typ key m) sides).to_remote ≡ finished
    → (communicate typ key (begun typ key m) sides).to_local ≡ finished
    → (communicate typ key (begun typ key m) sides).mgr ≡ close_base_handler m typ key
communicate_closes_once typ key m sides =
    let end = communicate typ key (begun typ key m) sides in
    ended typ key m end.mgr end.deleted end.to_remote end.to_local
      (communicate-Holds typ key m (begun typ key m) sides (inl (refl, refl)))
