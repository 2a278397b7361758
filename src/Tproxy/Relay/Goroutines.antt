-- ===== src/Tproxy/Relay/Goroutines.antt =====
-- The steps of the two goroutines of `Communicate`, and what the end of a copy leaves.
use deepin_network_proxy.Prelude.{
  ◌≡◌, refl, sym, ap, subst, ◌∙◌, inl, inr, Bool, true, false, List, [], ◌∷◌, ◌++◌, append-nil,
  arith, Bool-cases, Bytes, nat_Eq, list_Eq,
}
use deepin_network_proxy.Tproxy.Conn.{Conn}
use deepin_network_proxy.Tproxy.Conn.Reads.{stream}
use deepin_network_proxy.Tproxy.Handlers.{
  ProtoTyp, HandlerKey, HandlerMgr, Stage, copying, checked, marked, finished, Session, Side,
  remote_side, local_side, advance, step,
}
use deepin_network_proxy.Tproxy.Relay.{
  Round, copy_round, buffer_size, Carrying, is_copying, stage_of, shut, wind_up, copied, carry,
  relay,
}
use deepin_network_proxy.Tproxy.Relay.Copies.{Went, copy_round-Went}

pub shut-sent : (closed : Bool) (c : Conn) → (shut closed c).sent ≡ c.sent
shut-sent true c = refl
shut-sent false c = refl

-- What a close has cut off.
pub shut-incoming :
    (closed : Bool) (c : Conn)
    → (rest : Bytes) × (stream (shut closed c).incoming ++ rest ≡ stream c.incoming)
shut-incoming true c = (stream c.incoming, refl)
shut-incoming false c = ([], append-nil (stream c.incoming))

module _ (typ : ProtoTyp) (key : HandlerKey) where
  advance-is_copying :
      (t : Stage) (deleted : Bool) (m : HandlerMgr)
      → is_copying (advance typ key t deleted m).0 ≡ false
  unfolding advance
  advance-is_copying copying true m = refl
  advance-is_copying copying false m = refl
  advance-is_copying checked deleted m = refl
  advance-is_copying marked deleted m = refl
  advance-is_copying finished deleted m = refl

  pub step-is_copying :
      (s : Session) (side : Side) → is_copying (stage_of (step typ key s side) side) ≡ false
  unfolding step
  step-is_copying s remote_side = advance-is_copying s.to_remote s.deleted s.mgr
  step-is_copying s local_side = advance-is_copying s.to_local s.deleted s.mgr

  pub copied-to_remote :
      (s : Carrying) (goes_on : Bool)
      → (copied typ key s local_side goes_on).to_remote ≡ s.session.to_remote
  unfolding step
  copied-to_remote s true = refl
  copied-to_remote s false = refl

  pub copied-to_local :
      (s : Carrying) (goes_on : Bool)
      → (copied typ key s remote_side goes_on).to_local ≡ s.session.to_local
  unfolding step
  copied-to_local s true = refl
  copied-to_local s false = refl

  abbrev pub to_remote_round : Carrying → Round
  to_remote_round s = copy_round buffer_size s.r_conn s.l_conn

  abbrev pub to_local_round : Carrying → Round
  to_local_round s = copy_round buffer_size s.l_conn s.r_conn

  abbrev pub after_remote : Carrying → Carrying
  after_remote s =
      let r = to_remote_round s in
      record { session = copied typ key s remote_side r.goes_on; l_conn = r.src; r_conn = r.dst }

  abbrev pub after_local : Carrying → Carrying
  after_local s =
      let r = to_local_round s in
      record { session = copied typ key s local_side r.goes_on; l_conn = r.dst; r_conn = r.src }

  pub carry_to_remote :
      (s : Carrying)
      → is_copying s.session.to_remote ≡ true
      → carry typ key s remote_side ≡ after_remote s
  unfolding carry
  carry_to_remote s h = rw (carry, h) refl

  pub carry_to_local :
      (s : Carrying)
      → is_copying s.session.to_local ≡ true
      → carry typ key s local_side ≡ after_local s
  unfolding carry
  carry_to_local s h = rw (carry, h) refl

  pub carry_over :
      (s : Carrying) (side : Side)
      → is_copying (stage_of s.session side) ≡ false
      → carry typ key s side ≡ wind_up typ key s side
  unfolding carry
  carry_over s remote_side h = rw (carry, h) refl
  carry_over s local_side h = rw (carry, h) refl

  pub remote_Went : (s : Carrying) → Went s.r_conn s.l_conn (to_remote_round s)
  remote_Went s = copy_round-Went buffer_size s.r_conn s.l_conn (omega arith)

  pub local_Went : (s : Carrying) → Went s.l_conn s.r_conn (to_local_round s)
  local_Went s = copy_round-Went buffer_size s.l_conn s.r_conn (omega arith)

  -- Behind the end of the copy to the remote side nothing more is sent there.
  abbrev Silent : Carrying → Carrying → Type 0
  Silent s t = (is_copying t.session.to_remote ≡ false) × (t.r_conn.sent ≡ s.r_conn.sent)

  carry-Silent :
      (s : Carrying) (side : Side)
      → is_copying s.session.to_remote ≡ false
      → Silent s (carry typ key s side)
  unfolding wind_up step
  carry-Silent s remote_side h =
      subst (Silent s) (sym (carry_over s remote_side h))
        (step-is_copying s.session remote_side, shut-sent _ s.r_conn)
  carry-Silent s local_side h = elim (Bool-cases (is_copying s.session.to_local)) [
    | inl on ↦
        subst (Silent s) (sym (carry_to_local s on)) (
          ap is_copying (copied-to_remote s (to_local_round s).goes_on) ∙ h,
          (local_Went s).src_sent,
        )
    | inr over ↦ subst (Silent s) (sym (carry_over s local_side over)) (h, shut-sent _ s.r_conn)
  ]

  pub silent_sent :
      (sides : List Side) (s : Carrying)
      → is_copying s.session.to_remote ≡ false
      → (relay typ key s sides).r_conn.sent ≡ s.r_conn.sent
  unfolding relay
  silent_sent [] s h = refl
  silent_sent (side ∷ sides) s h =
      let (still, same) = carry-Silent s side h in
      silent_sent sides (carry typ key s side) still ∙ same

  -- The copy to the local side that has ended stays so.
  carry-local_over :
      (s : Carrying) (side : Side)
      → is_copying s.session.to_local ≡ false
      → is_copying (carry typ key s side).session.to_local ≡ false
  unfolding wind_up step
  carry-local_over s local_side h =
      ap (λ (t : Carrying). is_copying t.session.to_local) (carry_over s local_side h)
      ∙ step-is_copying s.session local_side
  carry-local_over s remote_side h = elim (Bool-cases (is_copying s.session.to_remote)) [
    | inl on ↦
        ap (λ (t : Carrying). is_copying t.session.to_local) (carry_to_remote s on)
        ∙ ap is_copying (copied-to_local s (to_remote_round s).goes_on)
        ∙ h
    | inr over ↦
        ap (λ (t : Carrying). is_copying t.session.to_local) (carry_over s remote_side over) ∙ h
  ]

  pub local_over :
      (sides : List Side) (s : Carrying)
      → is_copying s.session.to_local ≡ false
      → is_copying (relay typ key s sides).session.to_local ≡ false
  unfolding relay
  local_over [] s h = h
  local_over (side ∷ sides) s h =
      local_over sides (carry typ key s side) (carry-local_over s side h)
